-- ===== src/Dummy/Remote.antt =====
-- The coordinator's `create_fixture` of src/coordinator/src/plugin_client.rs over the wire to the
-- stub plugin of src/plugins/dummy/src/main.rs.
use rules_systemtest.Prelude.{List, ◌∷◌, [], map, ◌≡◌, ap, sym, subst, ◌∙◌, some}
use rules_systemtest.Result.{Result, ok, Error, Status, map_err, map_ok}
use rules_systemtest.Io.{continue, lift}
use rules_systemtest.Os.{Os}
use rules_systemtest.Proto.{CreateProgress, CreateRequest, DescribeResponses, FixtureResult}
use rules_systemtest.PluginClient
use rules_systemtest.PluginClient.{drain}
use rules_systemtest.PluginClient.Remote.{remote_os, remote_create_fixture, remote_describe_plugin}
use rules_systemtest.Rpc.Tonic.{Tonic}
use rules_systemtest.Rpc.PluginClient as Rpc
use rules_systemtest.Rpc.PluginClient.{PluginMessages, new}
use rules_systemtest.Rpc.PluginServer.{CoordinatorPlugin, CoordinatorPluginServer, call, configured}
use rules_systemtest.Rpc.Carried.{Carries}
use rules_systemtest.Rpc.PluginCarried.{ReplyFits, Method, plugin_call-handler}
use rules_systemtest.Dummy
use rules_systemtest.Dummy.{ports_input, stub_result, stub_progress, create_fixture}
use rules_systemtest.Dummy.Ports.{Json, list_or_default, ports, blob}
use rules_systemtest.Dummy.Service.{stub_service, reply_of}
use rules_systemtest.Dummy.Ordered.{ports-Lists}
use rules_systemtest.Dummy.Served.{create_fixture-blob, drain-stub}

module _ (os : Os) (tonic : Tonic os.World os.Channel) (messages : PluginMessages tonic.Body)
    (status_error : Status → Error) (json : Json) (panicked : Status)
    (server : CoordinatorPluginServer tonic) (stub : server.inner ≡ stub_service json panicked)
    (channel : os.Channel)
    (c : Carries tonic
      (tonic.client_grpc channel)
      (configured tonic server)
      (call tonic messages server)) where
  abbrev local : Os
  local = remote_os os tonic messages status_error

  -- The description that the coordinator gets.
  pub describe_plugin-remote :
      (w : os.World)
      → tonic.ready (tonic.client_grpc channel) w ≡ (ok tt, w)
      → c.Fits (messages.empty.encode (record {}))
      → ReplyFits tonic messages c.Fits Method.describe_plugin (Dummy.describe_plugin (record {}))
      → (described : DescribeResponses) × (remote_describe_plugin os tonic messages status_error
            channel w
          ≡ (ok described, w))
  unfolding remote_describe_plugin new Dummy.describe_plugin
  describe_plugin-remote w is_ready fits reply_fits = (
    _,
    ap {A = Result Status DescribeResponses × os.World}
        {B = Result Error DescribeResponses × os.World} (λ r. (map_err status_error r.0, r.1))
        (plugin_call-handler tonic messages (new tonic channel) server c Method.describe_plugin
            (record {}) w is_ready fits
            (subst
              (λ service.
                ReplyFits tonic messages c.Fits Method.describe_plugin
                  (service.describe_plugin (record {}) w).0)
              (sym stub) reply_fits)
          ∙ ap (λ (service : CoordinatorPlugin os.World). service.describe_plugin (record {}) w)
              stub),
  )

  module _ (req : CreateRequest) (w : os.World)
      (is_ready : tonic.ready (tonic.client_grpc channel) w ≡ (ok tt, w))
      (fits : c.Fits (messages.create_request.encode req))
      (reply_fits : ReplyFits tonic messages c.Fits Method.create_fixture
        (reply_of panicked (create_fixture json req)))
      (values : List json.JsonValue)
      (e : ports json (list_or_default (json.from_str (ports_input req))) ≡ some values) where
    carried :
        Rpc.create_fixture tonic messages (new tonic channel) req w
        ≡ (ok (ok (stub_progress (blob json values)) ∷ []), w)
    unfolding new
    carried =
        plugin_call-handler tonic messages (new tonic channel) server c Method.create_fixture req w
          is_ready fits
          (subst
            (λ service.
              ReplyFits tonic messages c.Fits Method.create_fixture
                (service.create_fixture req w).0)
            (sym stub) reply_fits)
        ∙ ap (λ (service : CoordinatorPlugin os.World). service.create_fixture req w) stub
        ∙ ap {B = Result Status (List (Result Status CreateProgress)) × os.World}
            (λ o. (reply_of panicked o, w)) (create_fixture-blob os status_error json req values e)

    -- The stream that the coordinator gets.
    pub stream-remote :
        remote_create_fixture os tonic messages status_error channel req w
        ≡ (ok (ok (stub_progress (blob json values)) ∷ []), w)
    unfolding remote_create_fixture new
    stream-remote =
        ap {B = Result Error (List (Result Error CreateProgress)) × os.World}
          (λ r. (map_ok (map (map_err status_error)) (map_err status_error r.0), r.1)) carried

  -- Over a connection that tonic carries to the stub plugin behind its generated server, whose
  -- client is ready and whose messages fit in the limits, the coordinator's create_fixture
  -- succeeds for every request with the fixture result that holds the JSON of the ports that the
  -- plugin lists.
  pub create_fixture-remote :
      (req : CreateRequest) (w : os.World)
      → tonic.ready (tonic.client_grpc channel) w ≡ (ok tt, w)
      → c.Fits (messages.create_request.encode req)
      → ReplyFits tonic messages c.Fits Method.create_fixture
          (reply_of panicked (create_fixture json req))
      → (values : List json.JsonValue) × (ports json
            (list_or_default (json.from_str (ports_input req)))
          ≡ some values)
        × (PluginClient.create_fixture (remote_os os tonic messages status_error) channel req w
            ≡ (ok (stub_result (blob json values)), w))
  unfolding PluginClient.create_fixture
  create_fixture-remote req w is_ready fits reply_fits =
      let (values, names, e, l, o, p) =
        ports-Lists json (list_or_default (json.from_str (ports_input req))) in
      (
        values,
        e,
        ap {A = Result Error (List (Result Error CreateProgress)) × os.World}
              {B = Result Error FixtureResult × os.World}
              (λ r. continue r.0 (λ stream. lift (drain local stream)) r.1)
              (stream-remote req w is_ready fits reply_fits values e)
            ∙ ap {B = Result Error FixtureResult × os.World} (λ r. (r, w))
                (drain-stub local status_error (blob json values)),
      )
