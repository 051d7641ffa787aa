-- ===== src/Rpc/CoordinatorCarried.antt =====
-- The client and the server of `CoordinatorService` in src/proto/systemtestrs/src/lib.rs, end to end.
use rules_systemtest.Prelude.{String, ◌≡◌, ◌≢◌, refl, arith, string_eq}
use rules_systemtest.Result.{Result, ok, Status, map_ok}
use rules_systemtest.Io.{Eff}
use rules_systemtest.Proto.{
  TakeLeaseRequest, TakeLeaseResponse, KeepaliveRequest, KeepaliveResponse, ReleaseRequest,
  ReleaseResponse, StatusRequest, StatusResponse,
}
use rules_systemtest.Rpc.Tonic.{Tonic}
use rules_systemtest.Rpc.CoordinatorClient
use rules_systemtest.Rpc.CoordinatorClient.{CoordinatorMessages, CoordinatorServiceClient}
use rules_systemtest.Rpc.CoordinatorServer.{
  CoordinatorService, CoordinatorServiceServer, service_name, call, configured,
}
use rules_systemtest.Rpc.Carried.{Carries, AllOk, call_unary_carried}

-- The methods of `CoordinatorService`.
pub data Method : Type 0 where
  take_lease keepalive release_lease status : Method

abbrev pub RequestOf : Method → Type 0
RequestOf take_lease = TakeLeaseRequest
RequestOf keepalive = KeepaliveRequest
RequestOf release_lease = ReleaseRequest
RequestOf status = StatusRequest

abbrev pub ReplyOf : Method → Type 0
ReplyOf take_lease = TakeLeaseResponse
ReplyOf keepalive = KeepaliveResponse
ReplyOf release_lease = ReleaseResponse
ReplyOf status = StatusResponse

abbrev pub handler :
    {W : Type 0} → CoordinatorService W → (m : Method) → RequestOf m → Eff Status W (ReplyOf m)
handler service take_lease = service.take_lease
handler service keepalive = service.keepalive
handler service release_lease = service.release_lease
handler service status = service.status

-- The path of a method.
abbrev pub path_of : Method → String
path_of take_lease = "/systemtest.v1.CoordinatorService/TakeLease"
path_of keepalive = "/systemtest.v1.CoordinatorService/Keepalive"
path_of release_lease = "/systemtest.v1.CoordinatorService/ReleaseLease"
path_of status = "/systemtest.v1.CoordinatorService/Status"

module _ {W Channel : Type 0} (tonic : Tonic W Channel)
    (messages : CoordinatorMessages tonic.Body) where
  open tonic use {Body}

  abbrev pub client_call :
      CoordinatorServiceClient tonic → (m : Method) → RequestOf m → Eff Status W (ReplyOf m)
  client_call client take_lease = CoordinatorClient.take_lease tonic messages client
  client_call client keepalive = CoordinatorClient.keepalive tonic messages client
  client_call client release_lease = CoordinatorClient.release_lease tonic messages client
  client_call client status = CoordinatorClient.status tonic messages client

  abbrev pub request_body : (m : Method) → RequestOf m → Body
  request_body take_lease = messages.take_lease_request.encode
  request_body keepalive = messages.keepalive_request.encode
  request_body release_lease = messages.release_request.encode
  request_body status = messages.status_request.encode

  -- The bodies of a reply fit.
  abbrev pub ReplyFits : (Body → Type 0) → (m : Method) → Result Status (ReplyOf m) → Type 0
  ReplyFits Fits take_lease r = AllOk Fits (map_ok messages.take_lease_response.encode r)
  ReplyFits Fits keepalive r = AllOk Fits (map_ok messages.keepalive_response.encode r)
  ReplyFits Fits release_lease r = AllOk Fits (map_ok messages.release_response.encode r)
  ReplyFits Fits status r = AllOk Fits (map_ok messages.status_response.encode r)

  module _ (client : CoordinatorServiceClient tonic) (server : CoordinatorServiceServer tonic)
      (c : Carries tonic client.inner (configured tonic server) (call tonic messages server)) where
    -- Over a connection that tonic carries, whose client is ready and whose messages fit in the
    -- limits, a call of any method of the generated CoordinatorService client is the call of the
    -- handler of that method behind the generated server.
    pub coordinator_call-handler :
        (m : Method) (req : RequestOf m) (w : W)
        → tonic.ready client.inner w ≡ (ok tt, w)
        → c.Fits (request_body m req)
        → ReplyFits c.Fits m (handler server.inner m req w).0
        → client_call client m req w ≡ handler server.inner m req w
    unfolding call CoordinatorClient.take_lease CoordinatorClient.keepalive
        CoordinatorClient.release_lease CoordinatorClient.status
    coordinator_call-handler take_lease req w is_ready fits reply_fits =
        call_unary_carried tonic messages.take_lease_request messages.take_lease_response c
          (path_of take_lease) service_name "TakeLease" req w is_ready fits server.inner.take_lease
          (rw (c.sent_path (path_of take_lease) (messages.take_lease_request.encode req)) refl)
          reply_fits
    coordinator_call-handler keepalive req w is_ready fits reply_fits =
        call_unary_carried tonic messages.keepalive_request messages.keepalive_response c
          (path_of keepalive) service_name "Keepalive" req w is_ready fits server.inner.keepalive
          (rw (c.sent_path (path_of keepalive) (messages.keepalive_request.encode req)) refl)
          reply_fits
    coordinator_call-handler release_lease req w is_ready fits reply_fits =
        call_unary_carried tonic messages.release_request messages.release_response c
          (path_of release_lease) service_name "ReleaseLease" req w is_ready fits
          server.inner.release_lease
          (rw (c.sent_path (path_of release_lease) (messages.release_request.encode req)) refl)
          reply_fits
    coordinator_call-handler status req w is_ready fits reply_fits =
        call_unary_carried tonic messages.status_request messages.status_response c (path_of status)
          service_name "Status" req w is_ready fits server.inner.status
          (rw (c.sent_path (path_of status) (messages.status_request.encode req)) refl) reply_fits

  -- A request to a path of no method of CoordinatorService is answered with the gRPC status
  -- Unimplemented and the gRPC content type, and no handler runs.
  pub coordinator_call_unknown :
      (server : CoordinatorServiceServer tonic) (req : tonic.HttpRequest) (w : W)
      → ((m : Method) → tonic.uri_path req ≢ path_of m)
      → call tonic messages server req w ≡ (
        tonic.insert_header
            (tonic.insert_header tonic.empty_response tonic.grpc_status tonic.code_unimplemented)
            tonic.content_type
            tonic.grpc_content_type,
        w,
      )
  unfolding call
  coordinator_call_unknown server req w other = ground (
    arith,
    other take_lease,
    string_eq.beq_iff (tonic.uri_path req) "/systemtest.v1.CoordinatorService/TakeLease",
    other keepalive,
    string_eq.beq_iff (tonic.uri_path req) "/systemtest.v1.CoordinatorService/Keepalive",
    other release_lease,
    string_eq.beq_iff (tonic.uri_path req) "/systemtest.v1.CoordinatorService/ReleaseLease",
    other status,
    string_eq.beq_iff (tonic.uri_path req) "/systemtest.v1.CoordinatorService/Status",
  )
