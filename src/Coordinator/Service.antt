-- ===== src/Coordinator/Service.antt =====
-- `impl CoordinatorService for Coordinator` of src/coordinator/src/coordinator.rs: the four handlers
-- as the service that the generated server calls. Its world is the state behind the lock and the
-- world outside; `draws` are the UUIDs that its next call draws, and `others` what other calls do
-- to the state while that call waits for its plugin.
use rules_systemtest.Prelude.{String}
use rules_systemtest.Os.{Os}
use rules_systemtest.Fixture.{Codec}
use rules_systemtest.Rpc.CoordinatorServer.{CoordinatorService}
use rules_systemtest.Coordinator.Memory.{State}
use rules_systemtest.Coordinator.TakeLease.{Draws, Process, take_lease}
use rules_systemtest.Coordinator.Leases.{keepalive, release_lease, status}

module _ (os : Os) (codec : Codec) (instance_dir : String) (draws : Draws)
    (others : State (Process os) → State (Process os)) where
  abbrev pub coordinator_service : CoordinatorService (State (Process os) × os.World)
  coordinator_service = record {
    take_lease = λ req (s, w).
        let (reply, s', w') = take_lease os codec instance_dir draws others req s w in
        (reply, (s', w'));
    keepalive = λ req (s, w). (keepalive req s, (s, w));
    release_lease = λ req (s, w). ((release_lease req s).0, ((release_lease req s).1, w));
    status = λ req (s, w). (status req s, (s, w));
  }
