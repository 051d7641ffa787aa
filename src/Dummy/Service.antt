-- ===== src/Dummy/Service.antt =====
-- `impl CoordinatorPlugin for StubPlugin` of src/plugins/dummy/src/main.rs: the handlers as the
-- service that the generated server calls. `panicked` is what tonic makes of a handler that panics.
use rules_systemtest.Prelude.{Option, none, some}
use rules_systemtest.Result.{Result, ok, err, Status}
use rules_systemtest.Rpc.PluginServer.{CoordinatorPlugin}
use rules_systemtest.Dummy.Ports.{Json}
use rules_systemtest.Dummy.{
  describe_plugin, get_resource_pool, get_resource_requests, create_fixture, destroy_fixture,
  health_check,
}

abbrev pub reply_of : {A : Type 0} → Status → Option A → Result Status A
reply_of panicked none = err panicked
reply_of panicked (some a) = ok a

module _ {W : Type 0} (json : Json) (panicked : Status) where
  abbrev pub stub_service : CoordinatorPlugin W
  stub_service = record {
    describe_plugin = λ req w. (describe_plugin req, w);
    get_resource_pool = λ req w. (get_resource_pool req, w);
    get_resource_requests = λ req w. (get_resource_requests req, w);
    create_fixture = λ req w. (reply_of panicked (create_fixture json req), w);
    destroy_fixture = λ req w. (destroy_fixture req, w);
    health_check = λ req w. (health_check req, w);
  }
