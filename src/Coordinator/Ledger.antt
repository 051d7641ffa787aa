-- ===== src/Coordinator/Ledger.antt =====
-- What src/coordinator/src/coordinator.rs keeps, without plugins, policies and slots: which fixture
-- each lease is on and the outputs of each fixture, along all histories, also those in which a
-- fixture is registered over another one.
use rules_systemtest.Prelude.{
  String, ◌≡◌, refl, ap, ◌∙◌, Bool, true, false, Option, none, some, [], arith, ◌==◌, if◌then◌else◌,
  Bool-cases, Option-cases, inl, inr,
}
use rules_systemtest.Result.{Result, ok, err, Status, not_found}
use rules_systemtest.Map
use rules_systemtest.Proto.{
  BTreeMap, Value, StatusResponse, KeepaliveResponse, ReleaseRequest, lease_status_number,
  succeeded,
}
use rules_systemtest.Fixture.{FixtureFingerprint, FixtureRecord, fingerprint_eq}
use rules_systemtest.Lease
use rules_systemtest.Lease.{LeaseId, LeaseRecord, lease_id_eq}
use rules_systemtest.Coordinator.Memory.{State}
use rules_systemtest.Coordinator.Leases.{status, keepalive, release_lease}
use rules_systemtest.Coordinator.Updates.{add_lease, fixtures-add_lease, leases-add_lease}
use rules_systemtest.Coordinator.Order.{freed, leases-release, fixtures-release}
use rules_systemtest.Coordinator.Invariant.{IsValid}
use rules_systemtest.Coordinator.Cases.{take_slot}
use rules_systemtest.Coordinator.Preserved.{known_fixture}

pub record Ledger : Type 0 where
  pub fixture_of : LeaseId → Option FixtureFingerprint
  pub outputs_of : FixtureFingerprint → Option (BTreeMap String Value)

-- A lease that was not held is put on a fixture.
abbrev pub IsGranted : LeaseId → FixtureFingerprint → Ledger → Ledger → Type 0
IsGranted id fp a b =
    (a.fixture_of id ≡ none)
    × ((j : LeaseId) → b.fixture_of j ≡ (if id == j then some fp else a.fixture_of j))

abbrev pub SameOutputs : Ledger → Ledger → Type 0
SameOutputs a b = (f : FixtureFingerprint) → b.outputs_of f ≡ a.outputs_of f

abbrev pub SameLedger : Ledger → Ledger → Type 0
SameLedger a b = ((j : LeaseId) → b.fixture_of j ≡ a.fixture_of j) × SameOutputs a b

-- The lease is put on a fixture that is there and has the outputs.
abbrev pub Shares : LeaseId → BTreeMap String Value → Ledger → Ledger → Type 0
Shares id outputs a b =
    (fp : FixtureFingerprint) × IsGranted id fp a b
    × (a.outputs_of fp ≡ some outputs)
    × SameOutputs a b

-- The lease is put on a fixture that gets the outputs, new or in the place of another one.
abbrev pub Provisions :
    LeaseId → FixtureFingerprint → BTreeMap String Value → Ledger → Ledger → Type 0
Provisions id fp outputs a b =
    IsGranted id fp a b
    × ((f : FixtureFingerprint)
        → b.outputs_of f ≡ (if fp == f then some outputs else a.outputs_of f))

-- The lease is on no fixture any more.
abbrev pub Ends : LeaseId → Ledger → Ledger → Type 0
Ends id a b =
    ((j : LeaseId) → b.fixture_of j ≡ (if id == j then none else a.fixture_of j)) × SameOutputs a b

-- The outputs of the fixture that a lease is on.
abbrev pub outputs_under : Ledger → Option FixtureFingerprint → Option (BTreeMap String Value)
outputs_under a none = none
outputs_under a (some fp) = a.outputs_of fp

-- What `status` answers.
abbrev pub answer : Option (BTreeMap String Value) → Result Status StatusResponse
answer none = err (not_found "unknown lease_id")
answer (some outputs) =
    ok (record { status = lease_status_number succeeded; outputs = outputs; messages = [] })

-- What `keepalive` answers.
abbrev pub alive : Option FixtureFingerprint → Result Status KeepaliveResponse
alive none = err (not_found "unknown lease_id")
alive (some _) = ok (record {})

abbrev fixture_in : Option LeaseRecord → Option FixtureFingerprint
fixture_in none = none
fixture_in (some l) = some l.fingerprint

fixture_in_if :
    (x : Bool) (o : Option LeaseRecord)
    → fixture_in (if x then none else o) ≡ (if x then none else fixture_in o)
fixture_in_if true o = refl
fixture_in_if false o = refl

module _ {P : Type 0} where
  abbrev outputs_in : Option (FixtureRecord P) → Option (BTreeMap String Value)
  outputs_in none = none
  outputs_in (some r) = some r.outputs

  abbrev pub ledger : State P → Ledger
  ledger s = record {
    fixture_of = λ id. fixture_in (Map.get s.leases id);
    outputs_of = λ fp. outputs_in (Map.get s.fixtures fp);
  }

  module _ (s : State P) (fp : FixtureFingerprint) (r : FixtureRecord P) (id : LeaseId) where
    pub add_lease-IsGranted :
        Map.get s.leases id ≡ none → IsGranted id fp (ledger s) (ledger (add_lease s fp r id))
    add_lease-IsGranted fresh =
        (ap fixture_in fresh, λ j. ground (arith, leases-add_lease s fp r id j))

    pub outputs-add_lease :
        (f : FixtureFingerprint)
        → outputs_in (Map.get (add_lease s fp r id).fixtures f)
          ≡ (if fp == f then some r.outputs else outputs_in (Map.get s.fixtures f))
    outputs-add_lease f = ground (arith, fixtures-add_lease s fp r id f)

  pub attach-Shares :
      (s : State P) (fp : FixtureFingerprint) (r : FixtureRecord P) (id : LeaseId)
      → Map.get s.leases id ≡ none
      → Map.get s.fixtures fp ≡ some r
      → Shares id r.outputs (ledger s) (ledger (add_lease s fp (take_slot r) id))
  attach-Shares s fp r id fresh found = (
    fp,
    add_lease-IsGranted s fp (take_slot r) id fresh,
    ap outputs_in found,
    λ f. ground (arith, fixtures-add_lease s fp (take_slot r) id f, fingerprint_eq.beq_iff fp f),
  )

  outputs-freed :
      (a : Option LeaseRecord) (fp : FixtureFingerprint) (o : Option (FixtureRecord P))
      → outputs_in (freed a fp o) ≡ outputs_in o
  outputs-freed none fp o = refl
  outputs-freed (some l) fp none = elim (Bool-cases (l.fingerprint == fp)) [
    | inl h ↦ rw h refl
    | inr h ↦ rw h refl
  ]
  outputs-freed (some l) fp (some r) = elim (Bool-cases (l.fingerprint == fp)) [
    | inl h ↦ rw h refl
    | inr h ↦ rw h refl
  ]

  pub release-Ends :
      (s : State P) (v : IsValid s) (req : ReleaseRequest)
      → Ends (Lease.from req.lease_id) (ledger s) (ledger (release_lease req s).1)
  release-Ends s v req = (
    λ j. ap fixture_in (leases-release s v req j) ∙ fixture_in_if (Lease.from req.lease_id == j) _,
    λ f. ap outputs_in (fixtures-release s v req f) ∙ outputs-freed _ f _,
  )

  pub status-ledger :
      (s : State P) (lease_id : String)
      → IsValid s
      → status (record { lease_id = lease_id }) s
        ≡ answer (outputs_under (ledger s) ((ledger s).fixture_of (Lease.from lease_id)))
  unfolding status
  status-ledger s lease_id v = elim (Option-cases (Map.get s.leases (Lease.from lease_id))) [
    | inl missing ↦ ground arith
    | inr (l, held) ↦
        let (r, found) = known_fixture s l.fingerprint (v.routed _ l held) in ground arith
  ]

  pub keepalive-ledger :
      (s : State P) (lease_id : String)
      → keepalive (record { lease_id = lease_id }) s
        ≡ alive ((ledger s).fixture_of (Lease.from lease_id))
  unfolding keepalive
  keepalive-ledger s lease_id = ground arith
