-- ===== src/Coordinator/Remote.antt =====
-- The handlers of src/coordinator/src/coordinator.rs over the wire, between the generated client and
-- the generated server of src/proto/systemtestrs/src/lib.rs.
use rules_systemtest.Prelude.{String, ◌≡◌, sym, ap, ◌∙◌, subst, []}
use rules_systemtest.Result.{Result, ok, Status}
use rules_systemtest.Os.{Os}
use rules_systemtest.Fixture.{Codec}
use rules_systemtest.Proto.{TakeLeaseRequest, TakeLeaseResponse, KeepaliveResponse, StatusResponse}
use rules_systemtest.Rpc.Tonic.{Tonic}
use rules_systemtest.Rpc.CoordinatorClient as Client
use rules_systemtest.Rpc.CoordinatorClient.{CoordinatorMessages, CoordinatorServiceClient}
use rules_systemtest.Rpc.CoordinatorServer.{
  CoordinatorService, CoordinatorServiceServer, call, configured,
}
use rules_systemtest.Rpc.Carried.{Carries}
use rules_systemtest.Rpc.CoordinatorCarried.{
  Method, RequestOf, ReplyFits, handler, client_call, request_body, coordinator_call-handler,
}
use rules_systemtest.Coordinator.Memory.{State}
use rules_systemtest.Coordinator.TakeLease.{Draws, Process}
use rules_systemtest.Coordinator.Service.{coordinator_service}
use rules_systemtest.Coordinator.Replies.{take_lease-status}

module _ (os : Os) (codec : Codec) (instance_dir : String) (draws : Draws)
    (others : State (Process os) → State (Process os)) {Channel : Type 0}
    (tonic : Tonic (State (Process os) × os.World) Channel)
    (messages : CoordinatorMessages tonic.Body) (client : CoordinatorServiceClient tonic)
    (server : CoordinatorServiceServer tonic)
    (c : Carries tonic client.inner (configured tonic server) (call tonic messages server)) where
  abbrev pub local : CoordinatorService (State (Process os) × os.World)
  local = coordinator_service os codec instance_dir draws others

  -- A call whose messages the connection can carry.
  pub record IsCarried (m : Method) (req : RequestOf m) (x : State (Process os) × os.World)
      : Type 0 where
    pub is_ready : tonic.ready client.inner x ≡ (ok tt, x)
    pub fits : c.Fits (request_body tonic messages m req)
    pub reply_fits : ReplyFits tonic messages c.Fits m (handler local m req x).0

  module _ (serves : server.inner ≡ local) where
    -- Over the wire a method is the handler of the coordinator.
    pub client_call-local :
        (m : Method) (req : RequestOf m) (x : State (Process os) × os.World)
        → IsCarried m req x
        → client_call tonic messages client m req x ≡ handler local m req x
    client_call-local m req x h =
        coordinator_call-handler tonic messages client server c m req x h.is_ready h.fits (
          subst (λ service. ReplyFits tonic messages c.Fits m (handler service m req x).0)
            (sym serves) h.reply_fits)
        ∙ ap (λ service. handler service m req x) serves

    -- Over a connection that can carry the three calls to the coordinator's handlers, a lease that
    -- the client's take_lease grants is known to the same client: status answers with the status
    -- and the outputs of the reply, keepalive succeeds, and both leave the state alone.
    pub take_lease-remote :
        (req : TakeLeaseRequest) (resp : TakeLeaseResponse) (s t : State (Process os))
        (w w' : os.World)
        → IsCarried Method.take_lease req (s, w)
        → IsCarried Method.status (record { lease_id = resp.lease_id }) (t, w')
        → IsCarried Method.keepalive (record { lease_id = resp.lease_id }) (t, w')
        → Client.take_lease tonic messages client req (s, w) ≡ (ok resp, (t, w'))
        → (Client.status tonic messages client (record { lease_id = resp.lease_id }) (t, w') ≡ (
          ok (record { status = resp.status; outputs = resp.outputs; messages = [] }),
          (t, w'),
        ))
          × (Client.keepalive tonic messages client (record { lease_id = resp.lease_id }) (t, w')
              ≡ (ok (record {}), (t, w')))
    take_lease-remote req resp s t w w' taking asking keeping taken =
        let (same, kept) = take_lease-status os codec instance_dir draws others req s t w w' resp (
          ap
            (λ (x : Result Status TakeLeaseResponse × (State (Process os) × os.World)).
              (x.0, x.1.0, x.1.1))
            (sym (client_call-local Method.take_lease req (s, w) taking) ∙ taken)) in
        (
          client_call-local Method.status _ (t, w') asking
              ∙ ap {B = Result Status StatusResponse × (State (Process os) × os.World)}
                  (λ r. (r, (t, w'))) same,
          client_call-local Method.keepalive _ (t, w') keeping
              ∙ ap {B = Result Status KeepaliveResponse × (State (Process os) × os.World)}
                  (λ r. (r, (t, w'))) kept,
        )
