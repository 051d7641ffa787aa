-- ===== src/Coordinator/Simulation.antt =====
-- The steps of src/coordinator/src/coordinator.rs as changes of the ledger of Coordinator/Ledger.
use rules_systemtest.Prelude.{String, ◌≡◌, refl, sym, ap}
use rules_systemtest.Result.{ok, err}
use rules_systemtest.Os.{Os}
use rules_systemtest.Proto.{TakeLeaseRequest, TakeLeaseResponse}
use rules_systemtest.Fixture.{FixtureRecord, Codec, fingerprint_eq}
use rules_systemtest.Lease
use rules_systemtest.Lease.{LeaseId, LeaseRecord, lease_id_eq}
use rules_systemtest.Coordinator.Memory.{State, default}
use rules_systemtest.Coordinator.TakeLease.{
  Draws, Process, Begun, replied, provisioning, begin, finish,
}
use rules_systemtest.Coordinator.Leases.{status, keepalive}
use rules_systemtest.Coordinator.Updates.{add_lease}
use rules_systemtest.Coordinator.Slots.{register}
use rules_systemtest.Coordinator.Calls.Begins.{Tells, begin-Tells}
use rules_systemtest.Coordinator.Step.{IsFresh}
use mathlib.Core.Path.{subst₂}
use rules_systemtest.Coordinator.Invariant.{IsValid}
use rules_systemtest.Coordinator.Step.{Step, begins, finishes, releases, Reaches, next}
use rules_systemtest.Coordinator.Cases.{new_record}
use rules_systemtest.Coordinator.Preserved.{Reaches-IsValid}
use rules_systemtest.Coordinator.Ledger.{
  Ledger, SameLedger, Shares, Provisions, Ends, outputs_under, answer, alive, ledger,
  add_lease-IsGranted, outputs-add_lease, attach-Shares, release-Ends, status-ledger,
  keepalive-ledger,
}

module _ (os : Os) (codec : Codec) where
  -- What the first part of a take_lease says of its reply is what it did.
  abbrev pub Replies : LeaseId → Begun os → Ledger → Ledger → Type 0
  Replies id (replied (ok response)) a b = Shares id response.outputs a b
  Replies id (replied (err _)) a b = SameLedger a b
  Replies id (provisioning _) a b = SameLedger a b

  -- What a step of the coordinator does to the ledger.
  abbrev pub Simulates : {s t : State (Process os)} → Step os codec s t → Ledger → Ledger → Type 0
  Simulates {s} (begins req draws w _) a b =
      Replies (Lease.random draws.lease) (begin os codec req draws s w).0 a b
  Simulates (finishes p draws (ok (_, result)) _ _ _) a b =
      Provisions (Lease.random draws.lease) p.fingerprint result.outputs a b
  Simulates (finishes _ _ (err _) _ _ _) a b = SameLedger a b
  Simulates (releases req) a b = Ends (Lease.from req.lease_id) a b

  same_ledger : (s t : State (Process os)) → t ≡ s → SameLedger (ledger s) (ledger t)
  same_ledger s t same = (
    λ j. ap (λ (u : State (Process os)). (ledger u).fixture_of j) same,
    λ f. ap (λ (u : State (Process os)). (ledger u).outputs_of f) same,
  )

  Tells-Replies :
      (req : TakeLeaseRequest) (draws : Draws) (s t : State (Process os)) (w : os.World)
      (b : Begun os)
      → IsFresh s draws
      → Tells os codec req draws s w b t
      → Replies (Lease.random draws.lease) b (ledger s) (ledger t)
  Tells-Replies req draws s t w (replied (err e)) fresh same = same_ledger s t same
  Tells-Replies req draws s t w (replied (ok response)) fresh shares =
      subst₂
        (λ (r : TakeLeaseResponse) (u : State (Process os)).
          Shares (Lease.random draws.lease) r.outputs (ledger s) (ledger u))
        (sym shares.response_lem) (sym shares.state_lem)
        (attach-Shares s shares.call.fingerprint shares.fixture _ fresh shares.found)
  Tells-Replies req draws s t w (provisioning p) fresh (same, _) = same_ledger s t same

  Step-Simulates :
      {s t : State (Process os)} (st : Step os codec s t)
      → IsValid s
      → Simulates st (ledger s) (ledger t)
  unfolding finish register add_lease
  Step-Simulates {s} (begins req draws w fresh) v =
      Tells-Replies req draws s _ w _ fresh (begin-Tells os codec req draws s w)
  Step-Simulates {s} (finishes p draws (ok (plugin, result)) w fresh fits) v =
      let r : FixtureRecord (Process os) = new_record p.desc p.client_id plugin result in
      let id = Lease.random draws.lease in
      (add_lease-IsGranted s p.fingerprint r id fresh, outputs-add_lease s p.fingerprint r id)
  Step-Simulates {s} (finishes p draws (err e) w fresh fits) v = ((λ j. refl), (λ f. refl))
  Step-Simulates {s} (releases req) v = release-Ends s v req

  -- In each state reached from the empty one, with fresh lease ids and limits that fit in an i64,
  -- each step does to the ledger - which fixture each lease is on, and the outputs of each fixture
  -- - what its call says, and nothing else: a first part that replies with a lease puts that lease
  -- on a fixture with the outputs of the reply; one that fails or waits changes nothing; a second
  -- part with a result puts its lease on the fixture of its fingerprint and gives that fixture the
  -- outputs of the result, and one with an error changes nothing; a release takes its lease off.
  -- In the state that is left, status and keepalive answer each lease id from the ledger.
  pub Reaches-Simulates :
      {s t : State (Process os)}
      → Reaches os codec default s
      → (st : Step os codec s t)
      → Simulates st (ledger s) (ledger t)
        × ((lease_id : String)
            → (status (record { lease_id = lease_id }) t
                ≡ answer (outputs_under (ledger t) ((ledger t).fixture_of (Lease.from lease_id))))
              × (keepalive (record { lease_id = lease_id }) t
                  ≡ alive ((ledger t).fixture_of (Lease.from lease_id))))
  Reaches-Simulates {s} {t} r st = (
    Step-Simulates st (Reaches-IsValid os codec r),
    λ lease_id. (
      status-ledger t lease_id (Reaches-IsValid os codec (next r st)),
      keepalive-ledger t lease_id,
    ),
  )
