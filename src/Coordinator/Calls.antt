-- ===== src/Coordinator/Calls.antt =====
-- The coordinator of src/coordinator/src/coordinator.rs with the calls that it is serving. A call of
-- `take_lease` that has to provision a fixture waits between its two locks while other calls come
-- and go, finishes with the outcome of its own plugin, or is dropped where its client gives up.
pub mod Begins
pub mod History
pub mod Stores
pub mod Worlds
pub mod Origin
pub mod Provenance
pub mod Identity
pub mod Policy
pub mod Single
pub mod Clients
use rules_systemtest.Prelude.{String, ◌≡◌, List, [], ◌∷◌, ◌++◌, Option, none, some}
use rules_systemtest.Result.{Result, ok, err, Status}
use rules_systemtest.Map
use rules_systemtest.Map.{Map}
use rules_systemtest.Os.{Os}
use rules_systemtest.Proto.{
  FixtureDescription, TakeLeaseRequest, TakeLeaseResponse, ReleaseRequest, FixtureResult,
}
use rules_systemtest.Fixture.{Codec}
use rules_systemtest.Lease
use rules_systemtest.Lease.{LeaseId, lease_id_eq}
use rules_systemtest.Coordinator.Memory.{State, default}
use rules_systemtest.Coordinator.TakeLease.{
  Draws, Pending, Process, Begun, replied, provisioning, begin, provision, finish,
}
use rules_systemtest.Coordinator.Leases.{release_lease}
use rules_systemtest.Coordinator.Step.{FitsI64, IsFresh}

-- A call that waits, with the UUIDs that it draws.
abbrev pub Waiting : Type 0
Waiting = Pending × Draws

-- The tables, the calls that wait, and to whom each lease was granted. The program keeps no such
-- note: `clients` is there for the statements.
pub record Service (os : Os) : Type 0 where
  pub state : State (Process os)
  pub waiting : List Waiting
  pub clients : Map LeaseId String

abbrev pub FitsDescription : Option FixtureDescription → Type 0
FitsDescription none = Unit {0}
FitsDescription (some d) = FitsI64 d.sharing

-- A granted lease is noted.
abbrev pub note :
    {A : Type 0} → Result Status A → LeaseId → String → Map LeaseId String → Map LeaseId String
note (ok _) id client m = Map.insert m id client
note (err e) id client m = m

module _ (os : Os) where
  abbrev pub idle : Service os
  idle = record { state = default; waiting = []; clients = Map.empty }

  -- The calls that wait, and the notes, once the first part of a call has replied or waits.
  abbrev pub queue : Begun os → Draws → List Waiting → List Waiting
  queue (replied r) draws waiting = waiting
  queue (provisioning p) draws waiting = (p, draws) ∷ waiting

  abbrev pub note_begun : Begun os → LeaseId → String → Map LeaseId String → Map LeaseId String
  note_begun (replied r) id client m = note r id client m
  note_begun (provisioning p) id client m = m

  abbrev pub after_begin :
      TakeLeaseRequest → Draws → Begun os → State (Process os) → Service os → Service os
  after_begin req draws begun t s = record {
    state = t;
    waiting = queue begun draws s.waiting;
    clients = note_begun begun (Lease.random draws.lease) req.client_id s.clients;
  }

  -- The service once a call that waited has finished.
  abbrev pub after_finish :
      Pending
      → Draws
      → Result Status TakeLeaseResponse
      → State (Process os)
      → List Waiting
      → Service os
      → Service os
  after_finish p draws r t waiting s = record {
    state = t;
    waiting = waiting;
    clients = note r (Lease.random draws.lease) p.client_id s.clients;
  }

module _ (os : Os) (codec : Codec) (instance_dir : String) where
  open os use {World}

  pub data Move (s : Service os) : Service os → Type 0 where
    calls :
        (req : TakeLeaseRequest) (draws : Draws) (w : World)
        → IsFresh s.state draws
        → FitsDescription req.fixture
        → Move s (
            let (begun, t, _) = begin os codec req draws s.state w in
            after_begin os req draws begun t s)
    -- The plugin was started in the world `w`, and the lock is taken again in the world `u`.
    finishes :
        (before after : List Waiting) (p : Pending) (draws : Draws) (w u : World)
        → s.waiting ≡ before ++ (p, draws) ∷ after
        → IsFresh s.state draws
        → Move s (
            let (reply, t, _) =
              finish os p draws (provision os instance_dir p draws w).0 s.state u in
            after_finish os p draws reply t (before ++ after) s)
    gives_up :
        (before after : List Waiting) (p : Pending) (draws : Draws)
        → s.waiting ≡ before ++ (p, draws) ∷ after
        → Move s (record s { waiting = before ++ after })
    releases : (req : ReleaseRequest) → Move s (record s { state = (release_lease req s.state).1 })

  -- What any calls, in any order, make of a service that starts.
  pub data Serves : Service os → Type 0 where
    starts : Serves (idle os)
    then : {s t : Service os} → Serves s → Move s t → Serves t
