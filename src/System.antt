-- ===== src/System.antt =====
-- The parts together: a client of src/proto/systemtestrs/src/lib.rs, the coordinator of
-- src/coordinator/src/coordinator.rs behind its generated server, and the stub plugin of
-- src/plugins/dummy/src/main.rs behind its own.
use mathlib.Core.List.{Perm}
use rules_systemtest.Prelude.{String, List, [], ◌∷◌, map, ◌≡◌, some}
use rules_systemtest.Result.{Result, ok, Error, Status}
use rules_systemtest.Map
use rules_systemtest.Os.{Os}
use rules_systemtest.Proto.{
  BTreeMap, Value, schema_blob, FixtureDescription, TakeLeaseRequest, CreateRequest,
  lease_status_number, succeeded,
}
use rules_systemtest.Fixture.{Codec, FixtureFingerprint, fingerprint_eq}
use rules_systemtest.Lease
use rules_systemtest.Coordinator.{State, register, Draws, Process, create_request, drop_replaced}
use rules_systemtest.Coordinator.Effects.{reply_of, Registers}
use rules_systemtest.Prelude.Int.{pos}
use rules_systemtest.Coordinator.Grants.{pending_of}
use rules_systemtest.Coordinator.Remote.{local, IsCarried}
use rules_systemtest.Rpc.Tonic.{Tonic}
use rules_systemtest.Rpc.PluginClient.{PluginMessages}
use rules_systemtest.Rpc.PluginServer.{CoordinatorPluginServer}
use rules_systemtest.Rpc.CoordinatorClient as Client
use rules_systemtest.Rpc.CoordinatorClient.{CoordinatorMessages, CoordinatorServiceClient}
use rules_systemtest.Rpc.CoordinatorServer.{CoordinatorServiceServer, call, configured}
use rules_systemtest.Rpc.CoordinatorCarried.{Method, RequestOf}
use rules_systemtest.Rpc.Carried.{Carries}
use rules_systemtest.Dummy.{ports_input, stub_result}
use rules_systemtest.Dummy.Ports.{Json, list_or_default, blob}
use rules_systemtest.Dummy.Ordered.{Lists, IsSorted}
use rules_systemtest.Dummy.Service.{stub_service}
use rules_systemtest.Dummy.Provided.{networked}

-- The output of a list of ports.
abbrev pub endpoints : (json : Json) → List json.JsonValue → BTreeMap String Value
endpoints json values =
    (
      "endpoints",
      record {
        value = some (
            schema_blob (record {
              schema_id = "systemtest.ports";
              contents =
                  list_or_default (json.to_vec (json.object (("ports", json.array values) ∷ [])));
            }));
      },
    )
    ∷ []

-- The ports that a create request asks for, as the entries of an object.
abbrev pub asked : (json : Json) → CreateRequest → List (String × json.JsonValue)
asked json request = list_or_default (json.from_str (ports_input request))

module _ (os : Os) (plugin_tonic : Tonic os.World os.Channel)
    (plugin_messages : PluginMessages plugin_tonic.Body) (status_error : Status → Error)
    (json : Json) (panicked : Status) (plugin_server : CoordinatorPluginServer plugin_tonic)
    (stub : plugin_server.inner ≡ stub_service json panicked) where
  -- The machine of the coordinator, whose calls to a plugin go over the wire to the stub plugin.
  abbrev pub machine : Os
  machine = networked os plugin_tonic plugin_messages status_error json panicked plugin_server stub

  module _ (codec : Codec) (instance_dir : String) (draws : Draws)
      (others : State (Process machine) → State (Process machine)) {Channel : Type 0}
      (tonic : Tonic (State (Process machine) × os.World) Channel)
      (messages : CoordinatorMessages tonic.Body) (client : CoordinatorServiceClient tonic)
      (server : CoordinatorServiceServer tonic)
      (c : Carries tonic client.inner (configured tonic server) (call tonic messages server))
      (serves : server.inner
        ≡ local machine codec instance_dir draws others tonic messages client server c) where
    abbrev Carried : (m : Method) → RequestOf m → State (Process machine) × os.World → Type 0
    Carried = IsCarried machine codec instance_dir draws others tonic messages client server c

    module _ (req : TakeLeaseRequest) (d : FixtureDescription) (path : String)
        (fp : FixtureFingerprint) (plugin : Process machine) (s : State (Process machine))
        (w w₁ : os.World) where
      abbrev request : CreateRequest
      request = create_request machine (pending_of req d path fp) draws

      abbrev granted_id : String
      granted_id = Lease.into_string (Lease.random draws.lease)

      -- What a take_lease leaves that provisions a fixture with a list of ports.
      abbrev registered : List json.JsonValue → State (Process machine) × os.World
      registered values = (
        (register (others s) fp d req.client_id plugin (stub_result (blob json values))
            (Lease.random draws.lease)).0,
        drop_replaced machine (Map.get (others s).fixtures fp) w₁,
      )

      -- The client gets a lease with the ports that it asked for, in order, and its later calls
      -- find the lease with them.
      pub record IsProvided : Type 0 where
        pub values : List json.JsonValue
        pub names : List String
        pub lists : Lists json (asked json request) names values
        pub sorted : IsSorted names
        pub same_names : Perm names (map (λ e. e.0) (asked json request))
        pub takes : Client.take_lease tonic messages client req (s, w) ≡ (
          ok (reply_of (Lease.random draws.lease) (endpoints json values) []),
          registered values,
        )
        pub answers :
            Client.status tonic messages client
              (record { lease_id = granted_id })
              (registered values)
            ≡ (
              ok (record {
                status = lease_status_number succeeded;
                outputs = endpoints json values;
                messages = [];
              }),
              registered values,
            )
        pub lives :
            Client.keepalive tonic messages client
              (record { lease_id = granted_id })
              (registered values)
            ≡ (ok (record {}), registered values)
        pub registers :
            Registers
              (others s)
              (registered values).0
              fp
              (Lease.random draws.lease)
              d
              req.client_id
              plugin
              (record {
                outputs = endpoints json values;
                idle_timeout_seconds = pos 60;
                instance_data = 115 ∷ 116 ∷ 117 ∷ 98 ∷ [];
                consumed = [];
              })
