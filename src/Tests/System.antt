-- ===== src/Tests/System.antt =====
-- A client, the coordinator and the stub plugin, on the connections of Tests/Wire.
use rules_systemtest.Prelude.{Option}
use rules_systemtest.Coordinator.{State, Process}
use rules_systemtest.Coordinator.Service.{coordinator_service}
use rules_systemtest.Rpc.CoordinatorClient.{CoordinatorServiceClient}
use rules_systemtest.Rpc.CoordinatorServer as Server
use rules_systemtest.Rpc.CoordinatorServer.{CoordinatorServiceServer}
use rules_systemtest.Rpc.CoordinatorCarried
use rules_systemtest.Tests.Machine.{Box, box_codec}
use rules_systemtest.Tests.Scenes.{draws}
use rules_systemtest.Tests.Packets.{packet_messages}
use rules_systemtest.Tests.Wire.{Link, wire}
use rules_systemtest.Tests.Provided.{machine}

abbrev Inside : Type 0
Inside = State (Process machine) × Box

abbrev server : CoordinatorServiceServer (wire Inside)
server = record {
  inner = coordinator_service machine box_codec "/run" (draws "l-1") (λ s. s);
  accept_compression_encodings = 0;
  send_compression_encodings = 0;
  max_decoding_message_size = Option.none;
  max_encoding_message_size = Option.none;
}

abbrev link : Link Inside
link = Server.call (wire Inside) packet_messages server

abbrev client : CoordinatorServiceClient (wire Inside)
client = record { inner = link }
