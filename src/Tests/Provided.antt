-- ===== src/Tests/Provided.antt =====
-- `take_lease` on the machine of Tests/Stub, whose plugin is the stub plugin.
use rules_systemtest.Prelude.{◌≡◌, refl, some}
use rules_systemtest.Result.{internal}
use rules_systemtest.Map
use rules_systemtest.Os.{Os}
use rules_systemtest.Proto.{FixtureDescription, binary_path}
use rules_systemtest.Fixture.{FixtureRecord, fingerprint_eq}
use rules_systemtest.Coordinator.{Process, default, create_request}
use rules_systemtest.Coordinator.Reuse.{IsReusable}
use rules_systemtest.Coordinator.Grants.{pending_of}
use rules_systemtest.Dummy.{describe_plugin, create_fixture}
use rules_systemtest.Dummy.Service.{reply_of}
use rules_systemtest.Dummy.Provided.{networked, IsConnected}
use rules_systemtest.Tests.Machine.{Box}
use rules_systemtest.Tests.Scenes.{start, draws, fp, description}
use rules_systemtest.Tests.Dummy.{json, status_error}
use rules_systemtest.Tests.Wire.{all_fit, stream_fits, wire, wire_carries}
use rules_systemtest.Tests.TakeLease.{local}
use rules_systemtest.Tests.Packets.{Packet, packet_plugin_messages}
use rules_systemtest.Tests.Stub.{stub_server, stub_link, linked}

abbrev pub machine : Os
machine =
    networked linked (wire Box) packet_plugin_messages status_error json (internal "panicked")
      stub_server refl

abbrev pub desc : FixtureDescription
desc = description "cache" (some (binary_path "plugin"))

abbrev pub child : Process machine
child = record { child = 7; client = stub_link }

pub nothing-IsReusable :
    (r : FixtureRecord (Process machine))
    → Map.get (default {P = Process machine}).fixtures fp ≡ some r
    → ¬ IsReusable r "alice"
unfolding default
nothing-IsReusable r e _ = cc (e, Map.get-empty {V = FixtureRecord (Process machine)} fp)

pub child-IsConnected :
    IsConnected linked
      (wire Box)
      packet_plugin_messages
      status_error
      json
      (internal "panicked")
      stub_server
      refl
      child
      (pending_of local desc "plugin" fp)
      (draws "l-1")
      start
child-IsConnected = record {
  carries = wire_carries Box stub_link;
  is_ready = refl;
  describe_fits = tt;
  description_fits = all_fit Packet.describe_responses (describe_plugin (record {}));
  create_fits = tt;
  stream_fits = stream_fits Packet.create_progress (
      reply_of (internal "panicked") (
        create_fixture json
          (create_request machine (pending_of local desc "plugin" fp) (draws "l-1"))));
}
