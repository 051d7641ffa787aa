-- ===== src/Rpc/PluginServer.antt =====
-- `coordinator_plugin_server` of src/proto/systemtestrs/src/lib.rs.
use rules_systemtest.Prelude.{ℕ, String, Option, none, some, ◌==◌, string_eq, if◌then◌else◌, List}
use rules_systemtest.Result.{Result, ok, Status}
use rules_systemtest.Io.{Eff}
use rules_systemtest.Proto.{
  Empty, DescribeResponses, CreateRequest, ResourcePool, ResourceRequests, CreateProgress,
  DestroyRequest, DestroyResponse, HealthCheckRequest, HealthCheckResponse,
}
use rules_systemtest.Rpc.Tonic.{Tonic}
use rules_systemtest.Rpc.Calls.{Poll, ready, configured_grpc, unimplemented_response}
use rules_systemtest.Rpc.PluginClient.{PluginMessages}

-- The trait `CoordinatorPlugin`, over the world that its methods change.
pub record CoordinatorPlugin (W : Type 0) : Type 0 where
  pub describe_plugin : Empty → Eff Status W DescribeResponses
  pub get_resource_pool : CreateRequest → Eff Status W ResourcePool
  pub get_resource_requests : CreateRequest → Eff Status W ResourceRequests
  pub create_fixture : CreateRequest → Eff Status W (List (Result Status CreateProgress))
  pub destroy_fixture : DestroyRequest → Eff Status W DestroyResponse
  pub health_check : HealthCheckRequest → Eff Status W HealthCheckResponse

abbrev pub service_name : String
service_name = "systemtest.v1.CoordinatorPlugin"

module _ {W Channel : Type 0} (tonic : Tonic W Channel) where
  open tonic use {
    HttpRequest, HttpResponse, CompressionEncoding, EnabledCompressionEncodings, ServerGrpc,
  }

  pub record CoordinatorPluginServer : Type 0 where
    pub inner : CoordinatorPlugin W
    pub accept_compression_encodings : EnabledCompressionEncodings
    pub send_compression_encodings : EnabledCompressionEncodings
    pub max_decoding_message_size : Option ℕ
    pub max_encoding_message_size : Option ℕ

  unfoldable pub from_arc : CoordinatorPlugin W → CoordinatorPluginServer
  from_arc inner = record {
    inner = inner;
    accept_compression_encodings = tonic.no_encodings;
    send_compression_encodings = tonic.no_encodings;
    max_decoding_message_size = none;
    max_encoding_message_size = none;
  }

  unfoldable pub new : CoordinatorPlugin W → CoordinatorPluginServer
  unfolding from_arc
  new inner = from_arc inner

  unfoldable pub with_interceptor :
      CoordinatorPlugin W → tonic.Interceptor → tonic.InterceptedService CoordinatorPluginServer
  unfolding new
  with_interceptor inner interceptor = tonic.intercepted_service (new inner) interceptor

  unfoldable pub accept_compressed :
      CoordinatorPluginServer → CompressionEncoding → CoordinatorPluginServer
  accept_compressed self encoding = record self {
    accept_compression_encodings = tonic.enable self.accept_compression_encodings encoding;
  }

  unfoldable pub send_compressed :
      CoordinatorPluginServer → CompressionEncoding → CoordinatorPluginServer
  send_compressed self encoding = record self {
    send_compression_encodings = tonic.enable self.send_compression_encodings encoding;
  }

  unfoldable pub set_max_decoding_message_size :
      CoordinatorPluginServer → ℕ → CoordinatorPluginServer
  set_max_decoding_message_size self limit = record self { max_decoding_message_size = some limit }

  unfoldable pub set_max_encoding_message_size :
      CoordinatorPluginServer → ℕ → CoordinatorPluginServer
  set_max_encoding_message_size self limit = record self { max_encoding_message_size = some limit }

  unfoldable pub clone : CoordinatorPluginServer → CoordinatorPluginServer
  clone self = record {
    inner = self.inner;
    accept_compression_encodings = self.accept_compression_encodings;
    send_compression_encodings = self.send_compression_encodings;
    max_decoding_message_size = self.max_decoding_message_size;
    max_encoding_message_size = self.max_encoding_message_size;
  }

  -- The service is always ready.
  unfoldable pub poll_ready : CoordinatorPluginServer → Poll (Result ⊥ (Unit {0}))
  poll_ready self = ready (ok tt)

  -- The `grpc` that each arm of `call` builds.
  abbrev pub configured : CoordinatorPluginServer → ServerGrpc
  configured self =
      configured_grpc tonic self.accept_compression_encodings self.send_compression_encodings
        self.max_decoding_message_size self.max_encoding_message_size

  module _ (messages : PluginMessages tonic.Body) where
    -- The arms of `call`, each with its service struct.
    unfoldable pub serve_describe_plugin :
        CoordinatorPluginServer → HttpRequest → W → HttpResponse × W
    serve_describe_plugin self =
        tonic.server_unary messages.empty messages.describe_responses (configured self)
          self.inner.describe_plugin

    unfoldable pub serve_get_resource_pool :
        CoordinatorPluginServer → HttpRequest → W → HttpResponse × W
    serve_get_resource_pool self =
        tonic.server_unary messages.create_request messages.resource_pool (configured self)
          self.inner.get_resource_pool

    unfoldable pub serve_get_resource_requests :
        CoordinatorPluginServer → HttpRequest → W → HttpResponse × W
    serve_get_resource_requests self =
        tonic.server_unary messages.create_request messages.resource_requests (configured self)
          self.inner.get_resource_requests

    unfoldable pub serve_create_fixture :
        CoordinatorPluginServer → HttpRequest → W → HttpResponse × W
    serve_create_fixture self =
        tonic.server_streaming messages.create_request messages.create_progress (configured self)
          self.inner.create_fixture

    unfoldable pub serve_destroy_fixture :
        CoordinatorPluginServer → HttpRequest → W → HttpResponse × W
    serve_destroy_fixture self =
        tonic.server_unary messages.destroy_request messages.destroy_response (configured self)
          self.inner.destroy_fixture

    unfoldable pub serve_health_check : CoordinatorPluginServer → HttpRequest → W → HttpResponse × W
    serve_health_check self =
        tonic.server_unary messages.health_check_request messages.health_check_response
          (configured self) self.inner.health_check

    unfoldable pub call : CoordinatorPluginServer → HttpRequest → W → HttpResponse × W
    unfolding unimplemented_response serve_describe_plugin serve_get_resource_pool
        serve_get_resource_requests serve_create_fixture serve_destroy_fixture serve_health_check
    call self req w =
        let path : String = tonic.uri_path req in
        if path == "/systemtest.v1.CoordinatorPlugin/DescribePlugin"
        then serve_describe_plugin self req w
        else if path == "/systemtest.v1.CoordinatorPlugin/GetResourcePool"
        then serve_get_resource_pool self req w
        else if path == "/systemtest.v1.CoordinatorPlugin/GetResourceRequests"
        then serve_get_resource_requests self req w
        else if path == "/systemtest.v1.CoordinatorPlugin/CreateFixture"
        then serve_create_fixture self req w
        else if path == "/systemtest.v1.CoordinatorPlugin/DestroyFixture"
        then serve_destroy_fixture self req w
        else if path == "/systemtest.v1.CoordinatorPlugin/HealthCheck"
        then serve_health_check self req w
        else (unimplemented_response tonic, w)
