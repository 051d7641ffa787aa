-- ===== src/Tests/Stub.antt =====
-- The stub plugin behind its generated server, on a connection of Tests/Wire.
use rules_systemtest.Prelude.{◌≡◌, refl, string_eq, true, [], Option}
use rules_systemtest.Result.{ok, internal}
use rules_systemtest.Os.{Os}
use rules_systemtest.Rpc.PluginClient as PluginStub
use rules_systemtest.Rpc.PluginServer
use rules_systemtest.Rpc.PluginServer.{CoordinatorPluginServer}
use rules_systemtest.Rpc.PluginCarried
use rules_systemtest.Rpc.PluginCarried.{plugin_call-handler, plugin_call_unknown}
use rules_systemtest.Dummy.{health_check}
use rules_systemtest.Dummy.Service.{stub_service}
use rules_systemtest.Tests.Machine.{Box, box_os}
use rules_systemtest.Tests.Scenes.{start}
use rules_systemtest.Tests.Dummy.{json}
use rules_systemtest.Tests.Packets.{packet_plugin_messages}
use rules_systemtest.Tests.Wire.{Link, wire, wire_carries}

-- The stub plugin behind its server.
abbrev pub stub_server : CoordinatorPluginServer (wire Box)
stub_server = record {
  inner = stub_service json (internal "panicked");
  accept_compression_encodings = 0;
  send_compression_encodings = 0;
  max_decoding_message_size = Option.none;
  max_encoding_message_size = Option.none;
}

abbrev pub stub_link : Link Box
stub_link = PluginServer.call (wire Box) packet_plugin_messages stub_server

plugin_call-handler_example :
    PluginStub.health_check
      (wire Box)
      packet_plugin_messages
      (record { inner = stub_link })
      (record { impl_id = "redis"; instance_data = [] })
      start
    ≡ (ok (record { healthy = true; message = "" }), start)
unfolding health_check
plugin_call-handler_example =
    plugin_call-handler (wire Box) packet_plugin_messages (record { inner = stub_link }) stub_server
      (wire_carries Box stub_link) PluginCarried.Method.health_check
      (record { impl_id = "redis"; instance_data = [] }) start refl tt tt

-- The machine of the coordinator, connected to the stub plugin.
abbrev pub linked : Os
linked = record (box_os 0 []) {
  Channel = Link Box;
  connect_with_connector = λ _ _ w. (ok stub_link, w);
  describe_plugin = λ _ w. (ok (record { responses = [] }), w);
  create_fixture = λ _ _ w. (ok [], w);
}
