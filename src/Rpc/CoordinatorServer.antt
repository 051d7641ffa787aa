-- ===== src/Rpc/CoordinatorServer.antt =====
-- `coordinator_service_server` of src/proto/systemtestrs/src/lib.rs.
use rules_systemtest.Prelude.{ℕ, String, Option, none, some, ◌==◌, string_eq, if◌then◌else◌}
use rules_systemtest.Result.{Result, ok, Status}
use rules_systemtest.Io.{Eff}
use rules_systemtest.Proto.{
  TakeLeaseRequest, TakeLeaseResponse, KeepaliveRequest, KeepaliveResponse, ReleaseRequest,
  ReleaseResponse, StatusRequest, StatusResponse,
}
use rules_systemtest.Rpc.Tonic.{Tonic}
use rules_systemtest.Rpc.Calls.{Poll, ready, configured_grpc, unimplemented_response}
use rules_systemtest.Rpc.CoordinatorClient.{CoordinatorMessages}

-- The trait `CoordinatorService`, over the world that its methods change.
pub record CoordinatorService (W : Type 0) : Type 0 where
  pub take_lease : TakeLeaseRequest → Eff Status W TakeLeaseResponse
  pub keepalive : KeepaliveRequest → Eff Status W KeepaliveResponse
  pub release_lease : ReleaseRequest → Eff Status W ReleaseResponse
  pub status : StatusRequest → Eff Status W StatusResponse

abbrev pub service_name : String
service_name = "systemtest.v1.CoordinatorService"

module _ {W Channel : Type 0} (tonic : Tonic W Channel) where
  open tonic use {
    HttpRequest, HttpResponse, CompressionEncoding, EnabledCompressionEncodings, ServerGrpc,
  }

  pub record CoordinatorServiceServer : Type 0 where
    pub inner : CoordinatorService W
    pub accept_compression_encodings : EnabledCompressionEncodings
    pub send_compression_encodings : EnabledCompressionEncodings
    pub max_decoding_message_size : Option ℕ
    pub max_encoding_message_size : Option ℕ

  unfoldable pub from_arc : CoordinatorService W → CoordinatorServiceServer
  from_arc inner = record {
    inner = inner;
    accept_compression_encodings = tonic.no_encodings;
    send_compression_encodings = tonic.no_encodings;
    max_decoding_message_size = none;
    max_encoding_message_size = none;
  }

  unfoldable pub new : CoordinatorService W → CoordinatorServiceServer
  unfolding from_arc
  new inner = from_arc inner

  unfoldable pub with_interceptor :
      CoordinatorService W → tonic.Interceptor → tonic.InterceptedService CoordinatorServiceServer
  unfolding new
  with_interceptor inner interceptor = tonic.intercepted_service (new inner) interceptor

  unfoldable pub accept_compressed :
      CoordinatorServiceServer → CompressionEncoding → CoordinatorServiceServer
  accept_compressed self encoding = record self {
    accept_compression_encodings = tonic.enable self.accept_compression_encodings encoding;
  }

  unfoldable pub send_compressed :
      CoordinatorServiceServer → CompressionEncoding → CoordinatorServiceServer
  send_compressed self encoding = record self {
    send_compression_encodings = tonic.enable self.send_compression_encodings encoding;
  }

  unfoldable pub set_max_decoding_message_size :
      CoordinatorServiceServer → ℕ → CoordinatorServiceServer
  set_max_decoding_message_size self limit = record self { max_decoding_message_size = some limit }

  unfoldable pub set_max_encoding_message_size :
      CoordinatorServiceServer → ℕ → CoordinatorServiceServer
  set_max_encoding_message_size self limit = record self { max_encoding_message_size = some limit }

  unfoldable pub clone : CoordinatorServiceServer → CoordinatorServiceServer
  clone self = record {
    inner = self.inner;
    accept_compression_encodings = self.accept_compression_encodings;
    send_compression_encodings = self.send_compression_encodings;
    max_decoding_message_size = self.max_decoding_message_size;
    max_encoding_message_size = self.max_encoding_message_size;
  }

  -- The service is always ready.
  unfoldable pub poll_ready : CoordinatorServiceServer → Poll (Result ⊥ (Unit {0}))
  poll_ready self = ready (ok tt)

  -- The `grpc` that each arm of `call` builds.
  abbrev pub configured : CoordinatorServiceServer → ServerGrpc
  configured self =
      configured_grpc tonic self.accept_compression_encodings self.send_compression_encodings
        self.max_decoding_message_size self.max_encoding_message_size

  module _ (messages : CoordinatorMessages tonic.Body) where
    -- The arms of `call`, each with its service struct.
    unfoldable pub serve_take_lease : CoordinatorServiceServer → HttpRequest → W → HttpResponse × W
    serve_take_lease self =
        tonic.server_unary messages.take_lease_request messages.take_lease_response
          (configured self) self.inner.take_lease

    unfoldable pub serve_keepalive : CoordinatorServiceServer → HttpRequest → W → HttpResponse × W
    serve_keepalive self =
        tonic.server_unary messages.keepalive_request messages.keepalive_response (configured self)
          self.inner.keepalive

    unfoldable pub serve_release_lease :
        CoordinatorServiceServer → HttpRequest → W → HttpResponse × W
    serve_release_lease self =
        tonic.server_unary messages.release_request messages.release_response (configured self)
          self.inner.release_lease

    unfoldable pub serve_status : CoordinatorServiceServer → HttpRequest → W → HttpResponse × W
    serve_status self =
        tonic.server_unary messages.status_request messages.status_response (configured self)
          self.inner.status

    unfoldable pub call : CoordinatorServiceServer → HttpRequest → W → HttpResponse × W
    unfolding unimplemented_response serve_take_lease serve_keepalive serve_release_lease
        serve_status
    call self req w =
        let path : String = tonic.uri_path req in
        if path == "/systemtest.v1.CoordinatorService/TakeLease"
        then serve_take_lease self req w
        else if path == "/systemtest.v1.CoordinatorService/Keepalive"
        then serve_keepalive self req w
        else if path == "/systemtest.v1.CoordinatorService/ReleaseLease"
        then serve_release_lease self req w
        else if path == "/systemtest.v1.CoordinatorService/Status"
        then serve_status self req w
        else (unimplemented_response tonic, w)
