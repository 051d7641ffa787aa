-- ===== src/Coordinator/Calls/Policy.antt =====
-- Who holds the leases on a fixture: what the sharing policy promises of all the clients to whom the
-- coordinator has granted one.
use mathlib.Core.Path.{subst₂}
use rules_systemtest.Prelude.{
  String, ◌≡◌, refl, subst, Option, none, some, inl, inr, arith, ◌==◌, Bool-cases, if◌then◌else◌,
}
use rules_systemtest.Map
use rules_systemtest.Map.{Map}
use rules_systemtest.Proto.{UseScope, unrestricted, client_restricted, single_use}
use rules_systemtest.Fixture.{FixtureFingerprint, FixtureRecord, fingerprint_eq}
use rules_systemtest.Lease.{LeaseId, LeaseRecord, lease_id_eq}
use rules_systemtest.Coordinator.Memory.{State, default}
use rules_systemtest.Coordinator.Updates.{
  add_lease, drop_lease, fixtures-add_lease, fixtures-drop_lease, leases-add_lease,
  leases-drop_lease,
}
use rules_systemtest.Coordinator.Invariant.{IsValid}
use rules_systemtest.Coordinator.Reuse.{Admits}

-- Which clients the policy lets hold a lease: any, or the one for which the fixture was created.
abbrev pub MayHold : Option UseScope → String → String → Type 0
MayHold (some (unrestricted _)) creator client = Unit {0}
MayHold (some (client_restricted _)) creator client = creator ≡ client
MayHold (some (single_use _)) creator client = creator ≡ client
MayHold none creator client = creator ≡ client

pub Admits-MayHold :
    (scope : Option UseScope) (creator client : String)
    → Admits scope creator client
    → MayHold scope creator client
Admits-MayHold (some (unrestricted _)) creator client h = tt
Admits-MayHold (some (client_restricted _)) creator client h = h
Admits-MayHold none creator client h = h
Admits-MayHold (some (single_use _)) creator client h = absurd h

pub creator-MayHold : (scope : Option UseScope) (creator : String) → MayHold scope creator creator
creator-MayHold (some (unrestricted _)) creator = tt
creator-MayHold (some (client_restricted _)) creator = refl
creator-MayHold none creator = refl
creator-MayHold (some (single_use _)) creator = refl

module _ {P : Type 0} where
  -- The client is known, and the fixture's policy lets it hold a lease.
  abbrev pub IsHolder : FixtureRecord P → Option String → Type 0
  IsHolder r none = ⊥
  IsHolder r (some client) = MayHold r.sharing.use_scope r.creating_client_id client

  -- Each lease is held by a client that the policy of its fixture lets hold it.
  abbrev pub IsHeld : State P → Map LeaseId String → Type 0
  IsHeld s clients =
      (id : LeaseId) (l : LeaseRecord) (r : FixtureRecord P)
      → Map.get s.leases id ≡ some l
      → Map.get s.fixtures l.fingerprint ≡ some r
      → IsHolder r (Map.get clients id)

  pub default-IsHeld : (clients : Map LeaseId String) → IsHeld default clients
  unfolding default
  default-IsHeld clients id l r held stored = absurd (cc (held, Map.get-empty {V = LeaseRecord} id))

  module _ (s : State P) (fp : FixtureFingerprint) (r : FixtureRecord P) (id : LeaseId)
      (clients : Map LeaseId String) where
    -- The leases that are on the fixture `fp` already may be held on `r`.
    abbrev KeepsHolders : Type 0
    KeepsHolders =
        (j : LeaseId) (l : LeaseRecord)
        → Map.get s.leases j ≡ some l
        → fp ≡ l.fingerprint
        → IsHolder r (Map.get clients j)

    -- On a fixture that is stored anew, an old lease is held as before.
    stored-IsHolder :
        (j : LeaseId) (l : LeaseRecord) (t : State P) (r' : FixtureRecord P)
        → Map.get s.leases j ≡ some l
        → Map.get t.fixtures l.fingerprint ≡ some r'
        → Map.get t.fixtures l.fingerprint
          ≡ (if fp == l.fingerprint then some r else Map.get s.fixtures l.fingerprint)
        → KeepsHolders
        → IsHeld s clients
        → IsHolder r' (Map.get clients j)
    stored-IsHolder j l t r' held stored e keeps old = elim (Bool-cases (fp == l.fingerprint)) [
      | inl same ↦
          let anew : r ≡ r' = ground arith in
          subst (λ x. IsHolder x (Map.get clients j)) anew
            (keeps j l held ((fingerprint_eq.beq_iff fp l.fingerprint).0 same))
      | inr other ↦ old j l r' held (ground arith)
    ]

    pub add_lease-IsHeld :
        (client : String)
        → MayHold r.sharing.use_scope r.creating_client_id client
        → KeepsHolders
        → IsHeld s clients
        → IsHeld (add_lease s fp r id) (Map.insert clients id client)
    add_lease-IsHeld client may keeps old j l r' held stored = elim (Bool-cases (id == j)) [
      | inl same ↦
          let anew : r ≡ r' = ground (
            arith,
            leases-add_lease s fp r id j,
            fixtures-add_lease s fp r id l.fingerprint,
            fingerprint_eq.beq_iff fp l.fingerprint,
          ) in
          let noted : some client ≡ Map.get (Map.insert clients id client) j =
            ground (arith, Map.get-insert clients id j client) in
          subst₂ IsHolder anew noted may
      | inr other ↦ subst (IsHolder r') (ground (arith, Map.get-insert clients id j client)) (
          stored-IsHolder j l (add_lease s fp r id) r'
            (ground (arith, leases-add_lease s fp r id j)) stored
            (fixtures-add_lease s fp r id l.fingerprint) keeps old)
    ]

    pub drop_lease-IsHeld :
        IsValid s → KeepsHolders → IsHeld s clients → IsHeld (drop_lease s fp r id) clients
    drop_lease-IsHeld v keeps old j l r' held stored =
        stored-IsHolder j l (drop_lease s fp r id) r'
          (ground (arith, leases-drop_lease s fp r id j v.leases_map)) stored
          (fixtures-drop_lease s fp r id l.fingerprint) keeps old
