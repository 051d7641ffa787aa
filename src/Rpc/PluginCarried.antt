-- ===== src/Rpc/PluginCarried.antt =====
-- The client and the server of `CoordinatorPlugin` in src/proto/systemtestrs/src/lib.rs, end to end.
use rules_systemtest.Prelude.{All, String, ◌≡◌, ◌≢◌, refl, arith, string_eq, List, map}
use rules_systemtest.Result.{Result, ok, Status, map_ok}
use rules_systemtest.Io.{Eff}
use rules_systemtest.Proto.{
  Empty, DescribeResponses, CreateRequest, ResourcePool, ResourceRequests, CreateProgress,
  DestroyRequest, DestroyResponse, HealthCheckRequest, HealthCheckResponse,
}
use rules_systemtest.Rpc.Tonic.{Tonic}
use rules_systemtest.Rpc.PluginClient
use rules_systemtest.Rpc.PluginClient.{PluginMessages, CoordinatorPluginClient}
use rules_systemtest.Rpc.PluginServer.{
  CoordinatorPlugin, CoordinatorPluginServer, service_name, call, configured,
}
use rules_systemtest.Rpc.Carried.{Carries, AllOk, call_unary_carried, call_streaming_carried}

-- The methods of `CoordinatorPlugin`.
pub data Method : Type 0 where
  describe_plugin get_resource_pool get_resource_requests create_fixture destroy_fixture
        health_check :
      Method

abbrev pub RequestOf : Method → Type 0
RequestOf describe_plugin = Empty
RequestOf get_resource_pool = CreateRequest
RequestOf get_resource_requests = CreateRequest
RequestOf create_fixture = CreateRequest
RequestOf destroy_fixture = DestroyRequest
RequestOf health_check = HealthCheckRequest

abbrev pub ReplyOf : Method → Type 0
ReplyOf describe_plugin = DescribeResponses
ReplyOf get_resource_pool = ResourcePool
ReplyOf get_resource_requests = ResourceRequests
ReplyOf create_fixture = List (Result Status CreateProgress)
ReplyOf destroy_fixture = DestroyResponse
ReplyOf health_check = HealthCheckResponse

abbrev pub handler :
    {W : Type 0} → CoordinatorPlugin W → (m : Method) → RequestOf m → Eff Status W (ReplyOf m)
handler service describe_plugin = service.describe_plugin
handler service get_resource_pool = service.get_resource_pool
handler service get_resource_requests = service.get_resource_requests
handler service create_fixture = service.create_fixture
handler service destroy_fixture = service.destroy_fixture
handler service health_check = service.health_check

-- The path of a method.
abbrev pub path_of : Method → String
path_of describe_plugin = "/systemtest.v1.CoordinatorPlugin/DescribePlugin"
path_of get_resource_pool = "/systemtest.v1.CoordinatorPlugin/GetResourcePool"
path_of get_resource_requests = "/systemtest.v1.CoordinatorPlugin/GetResourceRequests"
path_of create_fixture = "/systemtest.v1.CoordinatorPlugin/CreateFixture"
path_of destroy_fixture = "/systemtest.v1.CoordinatorPlugin/DestroyFixture"
path_of health_check = "/systemtest.v1.CoordinatorPlugin/HealthCheck"

module _ {W Channel : Type 0} (tonic : Tonic W Channel) (messages : PluginMessages tonic.Body) where
  open tonic use {Body}

  abbrev pub client_call :
      CoordinatorPluginClient tonic → (m : Method) → RequestOf m → Eff Status W (ReplyOf m)
  client_call client describe_plugin = PluginClient.describe_plugin tonic messages client
  client_call client get_resource_pool = PluginClient.get_resource_pool tonic messages client
  client_call client get_resource_requests =
      PluginClient.get_resource_requests tonic messages client
  client_call client create_fixture = PluginClient.create_fixture tonic messages client
  client_call client destroy_fixture = PluginClient.destroy_fixture tonic messages client
  client_call client health_check = PluginClient.health_check tonic messages client

  abbrev pub request_body : (m : Method) → RequestOf m → Body
  request_body describe_plugin = messages.empty.encode
  request_body get_resource_pool = messages.create_request.encode
  request_body get_resource_requests = messages.create_request.encode
  request_body create_fixture = messages.create_request.encode
  request_body destroy_fixture = messages.destroy_request.encode
  request_body health_check = messages.health_check_request.encode

  -- The bodies of a reply fit.
  abbrev pub ReplyFits : (Body → Type 0) → (m : Method) → Result Status (ReplyOf m) → Type 0
  ReplyFits Fits describe_plugin r = AllOk Fits (map_ok messages.describe_responses.encode r)
  ReplyFits Fits get_resource_pool r = AllOk Fits (map_ok messages.resource_pool.encode r)
  ReplyFits Fits get_resource_requests r = AllOk Fits (map_ok messages.resource_requests.encode r)
  ReplyFits Fits create_fixture r =
      AllOk (All (AllOk Fits)) (map_ok (map (map_ok messages.create_progress.encode)) r)
  ReplyFits Fits destroy_fixture r = AllOk Fits (map_ok messages.destroy_response.encode r)
  ReplyFits Fits health_check r = AllOk Fits (map_ok messages.health_check_response.encode r)

  module _ (client : CoordinatorPluginClient tonic) (server : CoordinatorPluginServer tonic)
      (c : Carries tonic client.inner (configured tonic server) (call tonic messages server)) where
    -- Over a connection that tonic carries, whose client is ready and whose messages fit in the
    -- limits, a call of any method of the generated CoordinatorPlugin client, the streaming one
    -- included, is the call of the handler of that method behind the generated server.
    pub plugin_call-handler :
        (m : Method) (req : RequestOf m) (w : W)
        → tonic.ready client.inner w ≡ (ok tt, w)
        → c.Fits (request_body m req)
        → ReplyFits c.Fits m (handler server.inner m req w).0
        → client_call client m req w ≡ handler server.inner m req w
    unfolding call PluginClient.describe_plugin PluginClient.get_resource_pool
        PluginClient.get_resource_requests PluginClient.create_fixture PluginClient.destroy_fixture
        PluginClient.health_check
    plugin_call-handler describe_plugin req w is_ready fits reply_fits =
        call_unary_carried tonic messages.empty messages.describe_responses c
          (path_of describe_plugin) service_name "DescribePlugin" req w is_ready fits
          server.inner.describe_plugin
          (rw (c.sent_path (path_of describe_plugin) (messages.empty.encode req)) refl) reply_fits
    plugin_call-handler get_resource_pool req w is_ready fits reply_fits =
        call_unary_carried tonic messages.create_request messages.resource_pool c
          (path_of get_resource_pool) service_name "GetResourcePool" req w is_ready fits
          server.inner.get_resource_pool
          (rw (c.sent_path (path_of get_resource_pool) (messages.create_request.encode req)) refl)
          reply_fits
    plugin_call-handler get_resource_requests req w is_ready fits reply_fits =
        call_unary_carried tonic messages.create_request messages.resource_requests c
          (path_of get_resource_requests) service_name "GetResourceRequests" req w is_ready fits
          server.inner.get_resource_requests
          (rw (c.sent_path (path_of get_resource_requests) (messages.create_request.encode req))
            refl)
          reply_fits
    plugin_call-handler create_fixture req w is_ready fits reply_fits =
        call_streaming_carried tonic messages.create_request messages.create_progress c
          (path_of create_fixture) service_name "CreateFixture" req w is_ready fits
          server.inner.create_fixture
          (rw (c.sent_path (path_of create_fixture) (messages.create_request.encode req)) refl)
          reply_fits
    plugin_call-handler destroy_fixture req w is_ready fits reply_fits =
        call_unary_carried tonic messages.destroy_request messages.destroy_response c
          (path_of destroy_fixture) service_name "DestroyFixture" req w is_ready fits
          server.inner.destroy_fixture
          (rw (c.sent_path (path_of destroy_fixture) (messages.destroy_request.encode req)) refl)
          reply_fits
    plugin_call-handler health_check req w is_ready fits reply_fits =
        call_unary_carried tonic messages.health_check_request messages.health_check_response c
          (path_of health_check) service_name "HealthCheck" req w is_ready fits
          server.inner.health_check
          (rw (c.sent_path (path_of health_check) (messages.health_check_request.encode req)) refl)
          reply_fits

  -- A request to a path of no method of CoordinatorPlugin is answered with the gRPC status
  -- Unimplemented and the gRPC content type, and no handler runs.
  pub plugin_call_unknown :
      (server : CoordinatorPluginServer tonic) (req : tonic.HttpRequest) (w : W)
      → ((m : Method) → tonic.uri_path req ≢ path_of m)
      → call tonic messages server req w ≡ (
        tonic.insert_header
            (tonic.insert_header tonic.empty_response tonic.grpc_status tonic.code_unimplemented)
            tonic.content_type
            tonic.grpc_content_type,
        w,
      )
  unfolding call
  plugin_call_unknown server req w other = ground (
    arith,
    other describe_plugin,
    string_eq.beq_iff (tonic.uri_path req) "/systemtest.v1.CoordinatorPlugin/DescribePlugin",
    other get_resource_pool,
    string_eq.beq_iff (tonic.uri_path req) "/systemtest.v1.CoordinatorPlugin/GetResourcePool",
    other get_resource_requests,
    string_eq.beq_iff (tonic.uri_path req) "/systemtest.v1.CoordinatorPlugin/GetResourceRequests",
    other create_fixture,
    string_eq.beq_iff (tonic.uri_path req) "/systemtest.v1.CoordinatorPlugin/CreateFixture",
    other destroy_fixture,
    string_eq.beq_iff (tonic.uri_path req) "/systemtest.v1.CoordinatorPlugin/DestroyFixture",
    other health_check,
    string_eq.beq_iff (tonic.uri_path req) "/systemtest.v1.CoordinatorPlugin/HealthCheck",
  )
