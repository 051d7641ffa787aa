-- ===== src/Coordinator/Step.antt =====
-- The coordinator as a transition system: each locked block of a handler is a step, so a history of
-- steps is any interleaving of any calls.
use rules_systemtest.Prelude.{◌≡◌, Option, none, some}
use rules_systemtest.Prelude.Int.{◌≤ℤ◌, i64_max}
use rules_systemtest.Result.{Result, Status}
use rules_systemtest.Map
use rules_systemtest.Os.{Os}
use rules_systemtest.Proto.{Sharing, TakeLeaseRequest, ReleaseRequest, FixtureResult}
use rules_systemtest.Fixture.{Codec}
use rules_systemtest.Lease
use rules_systemtest.Lease.{LeaseId, lease_id_eq}
use rules_systemtest.Coordinator.Memory.{State}
use rules_systemtest.Coordinator.TakeLease.{Draws, Pending, Process, begin, finish}
use rules_systemtest.Coordinator.Leases.{release_lease}

-- The slots that a description asks for are an i64, as every decoded message has them.
abbrev pub FitsI64 : Option Sharing → Type 0
FitsI64 none = Unit {0}
FitsI64 (some sharing) = sharing.maximum_concurrent_connections ≤ℤ i64_max

-- The UUID that was drawn for a lease names no lease yet.
abbrev pub IsFresh : {P : Type 0} → State P → Draws → Type 0
IsFresh s draws = Map.get s.leases (Lease.random draws.lease) ≡ none

module _ (os : Os) (codec : Codec) where
  open os use {World}

  pub data Step (s : State (Process os)) : State (Process os) → Type 0 where
    begins :
        (req : TakeLeaseRequest) (draws : Draws) (w : World)
        → IsFresh s draws
        → Step s (begin os codec req draws s w).1
    finishes :
        (p : Pending) (draws : Draws) (outcome : Result Status (Process os × FixtureResult))
        (w : World)
        → IsFresh s draws
        → FitsI64 p.desc.sharing
        → Step s (finish os p draws outcome s w).1
    releases : (req : ReleaseRequest) → Step s (release_lease req s).1

  pub data Reaches (s : State (Process os)) : State (Process os) → Type 0 where
    here : Reaches s s
    next : {t u : State (Process os)} → Reaches s t → Step t u → Reaches s u
