-- ===== src/Rpc/CoordinatorClient.antt =====
-- `coordinator_service_client` of src/proto/systemtestrs/src/lib.rs.
use rules_systemtest.Prelude.{ℕ, String}
use rules_systemtest.Result.{Status}
use rules_systemtest.Io.{Eff, Io, lift, pure, ◌>>=◌}
use rules_systemtest.Proto.{
  TakeLeaseRequest, TakeLeaseResponse, KeepaliveRequest, KeepaliveResponse, ReleaseRequest,
  ReleaseResponse, StatusRequest, StatusResponse,
}
use rules_systemtest.Rpc.Tonic.{Tonic, Message}
use rules_systemtest.Rpc.Calls.{call_unary}

-- The messages of the service, as prost derives them.
pub record CoordinatorMessages (Body : Type 0) : Type 0 where
  pub take_lease_request : Message Body TakeLeaseRequest
  pub take_lease_response : Message Body TakeLeaseResponse
  pub keepalive_request : Message Body KeepaliveRequest
  pub keepalive_response : Message Body KeepaliveResponse
  pub release_request : Message Body ReleaseRequest
  pub release_response : Message Body ReleaseResponse
  pub status_request : Message Body StatusRequest
  pub status_response : Message Body StatusResponse

module _ {W Channel : Type 0} (tonic : Tonic W Channel) where
  open tonic use {ClientGrpc, Uri, CompressionEncoding}

  pub record CoordinatorServiceClient : Type 0 where
    pub inner : ClientGrpc

  unfoldable pub new : Channel → CoordinatorServiceClient
  new inner = record { inner = tonic.client_grpc inner }

  unfoldable pub with_origin : Channel → Uri → CoordinatorServiceClient
  with_origin inner origin = record { inner = tonic.client_with_origin inner origin }

  unfoldable pub with_interceptor : Channel → tonic.Interceptor → CoordinatorServiceClient
  with_interceptor inner interceptor = record {
    inner = tonic.client_grpc_intercepted (tonic.intercepted_service inner interceptor);
  }

  unfoldable pub connect : String → Io W CoordinatorServiceClient
  unfolding new
  connect dst = do
    endpoint ← lift (tonic.endpoint dst)
    conn ← tonic.connect endpoint
    pure (new conn)

  unfoldable pub send_compressed :
      CoordinatorServiceClient → CompressionEncoding → CoordinatorServiceClient
  send_compressed self encoding = record {
    inner = tonic.client_send_compressed self.inner encoding;
  }

  unfoldable pub accept_compressed :
      CoordinatorServiceClient → CompressionEncoding → CoordinatorServiceClient
  accept_compressed self encoding = record {
    inner = tonic.client_accept_compressed self.inner encoding;
  }

  unfoldable pub max_decoding_message_size : CoordinatorServiceClient → ℕ → CoordinatorServiceClient
  max_decoding_message_size self limit = record {
    inner = tonic.client_max_decoding_message_size self.inner limit;
  }

  unfoldable pub max_encoding_message_size : CoordinatorServiceClient → ℕ → CoordinatorServiceClient
  max_encoding_message_size self limit = record {
    inner = tonic.client_max_encoding_message_size self.inner limit;
  }

  module _ (messages : CoordinatorMessages tonic.Body) (self : CoordinatorServiceClient) where
    unfoldable pub take_lease : TakeLeaseRequest → Eff Status W TakeLeaseResponse
    unfolding call_unary
    take_lease request =
        call_unary tonic messages.take_lease_request messages.take_lease_response self.inner request
          "/systemtest.v1.CoordinatorService/TakeLease" "systemtest.v1.CoordinatorService"
          "TakeLease"

    unfoldable pub keepalive : KeepaliveRequest → Eff Status W KeepaliveResponse
    unfolding call_unary
    keepalive request =
        call_unary tonic messages.keepalive_request messages.keepalive_response self.inner request
          "/systemtest.v1.CoordinatorService/Keepalive" "systemtest.v1.CoordinatorService"
          "Keepalive"

    unfoldable pub release_lease : ReleaseRequest → Eff Status W ReleaseResponse
    unfolding call_unary
    release_lease request =
        call_unary tonic messages.release_request messages.release_response self.inner request
          "/systemtest.v1.CoordinatorService/ReleaseLease" "systemtest.v1.CoordinatorService"
          "ReleaseLease"

    unfoldable pub status : StatusRequest → Eff Status W StatusResponse
    unfolding call_unary
    status request =
        call_unary tonic messages.status_request messages.status_response self.inner request
          "/systemtest.v1.CoordinatorService/Status" "systemtest.v1.CoordinatorService" "Status"
