-- ===== src/Rpc/PluginClient.antt =====
-- `coordinator_plugin_client` of src/proto/systemtestrs/src/lib.rs.
use rules_systemtest.Prelude.{ℕ, String, List}
use rules_systemtest.Result.{Result, Status}
use rules_systemtest.Io.{Eff, Io, lift, pure, ◌>>=◌}
use rules_systemtest.Proto.{
  Empty, DescribeResponses, CreateRequest, ResourcePool, ResourceRequests, CreateProgress,
  DestroyRequest, DestroyResponse, HealthCheckRequest, HealthCheckResponse,
}
use rules_systemtest.Rpc.Tonic.{Tonic, Message}
use rules_systemtest.Rpc.Calls.{call_unary, call_streaming}

-- The messages of the service, as prost derives them.
pub record PluginMessages (Body : Type 0) : Type 0 where
  pub empty : Message Body Empty
  pub describe_responses : Message Body DescribeResponses
  pub create_request : Message Body CreateRequest
  pub resource_pool : Message Body ResourcePool
  pub resource_requests : Message Body ResourceRequests
  pub create_progress : Message Body CreateProgress
  pub destroy_request : Message Body DestroyRequest
  pub destroy_response : Message Body DestroyResponse
  pub health_check_request : Message Body HealthCheckRequest
  pub health_check_response : Message Body HealthCheckResponse

module _ {W Channel : Type 0} (tonic : Tonic W Channel) where
  open tonic use {ClientGrpc, Uri, CompressionEncoding}

  pub record CoordinatorPluginClient : Type 0 where
    pub inner : ClientGrpc

  unfoldable pub new : Channel → CoordinatorPluginClient
  new inner = record { inner = tonic.client_grpc inner }

  unfoldable pub with_origin : Channel → Uri → CoordinatorPluginClient
  with_origin inner origin = record { inner = tonic.client_with_origin inner origin }

  unfoldable pub with_interceptor : Channel → tonic.Interceptor → CoordinatorPluginClient
  with_interceptor inner interceptor = record {
    inner = tonic.client_grpc_intercepted (tonic.intercepted_service inner interceptor);
  }

  unfoldable pub connect : String → Io W CoordinatorPluginClient
  unfolding new
  connect dst = do
    endpoint ← lift (tonic.endpoint dst)
    conn ← tonic.connect endpoint
    pure (new conn)

  unfoldable pub send_compressed :
      CoordinatorPluginClient → CompressionEncoding → CoordinatorPluginClient
  send_compressed self encoding = record {
    inner = tonic.client_send_compressed self.inner encoding;
  }

  unfoldable pub accept_compressed :
      CoordinatorPluginClient → CompressionEncoding → CoordinatorPluginClient
  accept_compressed self encoding = record {
    inner = tonic.client_accept_compressed self.inner encoding;
  }

  unfoldable pub max_decoding_message_size : CoordinatorPluginClient → ℕ → CoordinatorPluginClient
  max_decoding_message_size self limit = record {
    inner = tonic.client_max_decoding_message_size self.inner limit;
  }

  unfoldable pub max_encoding_message_size : CoordinatorPluginClient → ℕ → CoordinatorPluginClient
  max_encoding_message_size self limit = record {
    inner = tonic.client_max_encoding_message_size self.inner limit;
  }

  module _ (messages : PluginMessages tonic.Body) (self : CoordinatorPluginClient) where
    unfoldable pub describe_plugin : Empty → Eff Status W DescribeResponses
    unfolding call_unary
    describe_plugin request =
        call_unary tonic messages.empty messages.describe_responses self.inner request
          "/systemtest.v1.CoordinatorPlugin/DescribePlugin" "systemtest.v1.CoordinatorPlugin"
          "DescribePlugin"

    unfoldable pub get_resource_pool : CreateRequest → Eff Status W ResourcePool
    unfolding call_unary
    get_resource_pool request =
        call_unary tonic messages.create_request messages.resource_pool self.inner request
          "/systemtest.v1.CoordinatorPlugin/GetResourcePool" "systemtest.v1.CoordinatorPlugin"
          "GetResourcePool"

    unfoldable pub get_resource_requests : CreateRequest → Eff Status W ResourceRequests
    unfolding call_unary
    get_resource_requests request =
        call_unary tonic messages.create_request messages.resource_requests self.inner request
          "/systemtest.v1.CoordinatorPlugin/GetResourceRequests" "systemtest.v1.CoordinatorPlugin"
          "GetResourceRequests"

    unfoldable pub create_fixture :
        CreateRequest → Eff Status W (List (Result Status CreateProgress))
    unfolding call_streaming
    create_fixture request =
        call_streaming tonic messages.create_request messages.create_progress self.inner request
          "/systemtest.v1.CoordinatorPlugin/CreateFixture" "systemtest.v1.CoordinatorPlugin"
          "CreateFixture"

    unfoldable pub destroy_fixture : DestroyRequest → Eff Status W DestroyResponse
    unfolding call_unary
    destroy_fixture request =
        call_unary tonic messages.destroy_request messages.destroy_response self.inner request
          "/systemtest.v1.CoordinatorPlugin/DestroyFixture" "systemtest.v1.CoordinatorPlugin"
          "DestroyFixture"

    unfoldable pub health_check : HealthCheckRequest → Eff Status W HealthCheckResponse
    unfolding call_unary
    health_check request =
        call_unary tonic messages.health_check_request messages.health_check_response self.inner
          request "/systemtest.v1.CoordinatorPlugin/HealthCheck" "systemtest.v1.CoordinatorPlugin"
          "HealthCheck"
