-- ===== src/Dummy/Provided.antt =====
-- The coordinator's `take_lease` with the stub plugin of src/plugins/dummy/src/main.rs as the plugin
-- of the fixture: the handler, the generated client and server, and the plugin's handlers together.
use rules_systemtest.Prelude.{String, List, [], ◌∷◌, ◌≡◌, some}
use rules_systemtest.Result.{ok, Error, Status}
use rules_systemtest.Map
use rules_systemtest.Os.{Os}
use rules_systemtest.Proto.{FixtureDescription, TakeLeaseRequest, binary_path}
use rules_systemtest.Fixture.{Codec, FixtureFingerprint, FixtureRecord, compute, fingerprint_eq}
use rules_systemtest.Lease
use rules_systemtest.PluginClient.{spawn}
use rules_systemtest.PluginClient.Drains.{drain-eq_iff}
use rules_systemtest.PluginClient.Remote.{remote_os}
use rules_systemtest.Coordinator.{
  State, plugin_socket_path, startup_timeout, register, granted, Draws, Pending, Process,
  create_request, drop_replaced, take_lease,
}
use rules_systemtest.Coordinator.Reuse.{IsReusable}
use rules_systemtest.Coordinator.Grants.{pending_of, take_lease-grants}
use rules_systemtest.Rpc.Tonic.{Tonic}
use rules_systemtest.Rpc.PluginClient.{PluginMessages}
use rules_systemtest.Rpc.PluginServer.{CoordinatorPluginServer, call, configured}
use rules_systemtest.Rpc.Carried.{Carries}
use rules_systemtest.Rpc.PluginCarried.{ReplyFits, Method}
use rules_systemtest.Dummy
use rules_systemtest.Dummy.{ports_input, stub_result, stub_progress, create_fixture}
use rules_systemtest.Dummy.Ports.{Json, list_or_default, ports, blob}
use rules_systemtest.Dummy.Ordered.{ports-Lists}
use rules_systemtest.Dummy.Service.{stub_service, reply_of}
use rules_systemtest.Dummy.Served.{drain-stub}
use rules_systemtest.Dummy.Remote.{describe_plugin-remote, stream-remote}

module _ (os : Os) (tonic : Tonic os.World os.Channel) (messages : PluginMessages tonic.Body)
    (status_error : Status → Error) (json : Json) (panicked : Status)
    (server : CoordinatorPluginServer tonic)
    (stub : server.inner ≡ stub_service json panicked) where
  abbrev pub networked : Os
  networked = remote_os os tonic messages status_error

  -- The plugin's process is connected to the stub plugin, and the messages of the two calls to it
  -- fit in the limits.
  pub record IsConnected (plugin : Process networked) (p : Pending) (draws : Draws) (w : os.World)
      : Type 1 where
    pub carries :
        Carries tonic
          (tonic.client_grpc plugin.client)
          (configured tonic server)
          (call tonic messages server)
    pub is_ready : tonic.ready (tonic.client_grpc plugin.client) w ≡ (ok tt, w)
    pub describe_fits : carries.Fits (messages.empty.encode (record {}))
    pub description_fits :
        ReplyFits tonic messages carries.Fits Method.describe_plugin
          (Dummy.describe_plugin (record {}))
    pub create_fits :
        carries.Fits (messages.create_request.encode (create_request networked p draws))
    pub stream_fits :
        ReplyFits tonic messages carries.Fits Method.create_fixture
          (reply_of panicked (create_fixture json (create_request networked p draws)))

  module _ (codec : Codec) (instance_dir : String) (draws : Draws)
      (others : State (Process networked) → State (Process networked)) (req : TakeLeaseRequest)
      (s : State (Process networked)) (w : os.World) where
    -- When a local plugin's file can be read, the reuse rule admits no fixture of the tables with
    -- its fingerprint, the plugin starts, and its connection is carried by tonic to the stub
    -- plugin behind its generated server, with a client that is ready and messages that fit in the
    -- limits: take_lease grants a lease whose outputs are those of the stub plugin for the ports
    -- of its create request, and registers the fixture with them.
    pub take_lease-stub :
        (d : FixtureDescription) (path : String) (fp : FixtureFingerprint) (w₀ w₁ : os.World)
        (plugin : Process networked)
        → req.fixture ≡ some d
        → d.plugin ≡ some (binary_path path)
        → compute networked codec d path w ≡ (ok fp, w₀)
        → ((r : FixtureRecord (Process networked))
            → Map.get s.fixtures fp ≡ some r
            → ¬ IsReusable r req.client_id)
        → spawn networked path
            (plugin_socket_path networked instance_dir draws.socket)
            (startup_timeout d.startup_timeout_seconds)
            w₀
          ≡ (ok plugin, w₁)
        → IsConnected plugin (pending_of req d path fp) draws w₁
        → (values : List json.JsonValue) × (ports json (
              list_or_default (
                json.from_str
                  (ports_input (create_request networked (pending_of req d path fp) draws))))
            ≡ some values)
          × (take_lease networked codec instance_dir draws others req s w ≡ (
            ok (granted (Lease.random draws.lease) (stub_result (blob json values)).outputs []),
            (register
                (others s)
                fp
                d
                req.client_id
                plugin
                (stub_result (blob json values))
                (Lease.random draws.lease)).0,
            drop_replaced networked (Map.get (others s).fixtures fp) w₁,
          ))
    take_lease-stub d path fp w₀ w₁ plugin described named computed none_reusable starts h =
        let creq = create_request networked (pending_of req d path fp) draws in
        let (values, names, e, l, o, p) =
          ports-Lists json (list_or_default (json.from_str (ports_input creq))) in
        let (description, describes) =
          describe_plugin-remote os tonic messages status_error json panicked server stub
            plugin.client h.carries w₁ h.is_ready h.describe_fits h.description_fits in
        (
          values,
          e,
          take_lease-grants networked codec instance_dir draws others req s w d path fp w₀ described
              named computed plugin description (ok (stub_progress (blob json values)) ∷ [])
              (stub_result (blob json values)) w₁ w₁ w₁ none_reusable
              (record {
                starts = starts;
                describes = describes;
                streams =
                    stream-remote os tonic messages status_error json panicked server stub
                      plugin.client h.carries creq w₁ h.is_ready h.create_fits h.stream_fits values
                      e;
                drains =
                    (drain-eq_iff networked (ok (stub_progress (blob json values)) ∷ [])
                        (ok (stub_result (blob json values)))).0
                      (drain-stub networked status_error (blob json values));
              }),
        )
