-- ===== src/Tests/Rpc.antt =====
-- The coordinator behind its generated server, on a connection of Tests/Wire.
use rules_systemtest.Prelude.{◌≡◌, refl, ap, string_eq, [], Option}
use rules_systemtest.Prelude.Int.{pos}
use rules_systemtest.Result.{Result, ok, Status, map_ok}
use rules_systemtest.Proto.{TakeLeaseResponse, lease_status_number}
use rules_systemtest.Lease
use rules_systemtest.Coordinator.{State, Process, default, granted, release_lease}
use rules_systemtest.Coordinator.Service.{coordinator_service}
use rules_systemtest.Coordinator.Remote.{IsCarried, take_lease-remote}
use rules_systemtest.Rpc.CoordinatorClient as Client
use rules_systemtest.Rpc.CoordinatorClient.{CoordinatorServiceClient}
use rules_systemtest.Rpc.CoordinatorServer as Server
use rules_systemtest.Rpc.CoordinatorServer.{CoordinatorService, CoordinatorServiceServer}
use rules_systemtest.Rpc.Carried.{and_then}
use rules_systemtest.Rpc.CoordinatorCarried
use rules_systemtest.Rpc.CoordinatorCarried.{coordinator_call-handler, coordinator_call_unknown}
use rules_systemtest.Tests.Machine.{Box, box_codec}
use rules_systemtest.Tests.Scenes.{os, start, draws, release}
use rules_systemtest.Tests.TakeLease.{local, registered, connected, take_lease_runs}
use rules_systemtest.Tests.Packets.{Packet, packet_messages}
use rules_systemtest.Tests.Wire.{all_fit, Link, wire, wire_carries}

abbrev Inside : Type 0
Inside = State (Process os) × Box

abbrev service : CoordinatorService Inside
service = coordinator_service os box_codec "/run" (draws "l-1") (λ s. s)

abbrev server : CoordinatorServiceServer (wire Inside)
server = record {
  inner = service;
  accept_compression_encodings = 0;
  send_compression_encodings = 0;
  max_decoding_message_size = Option.none;
  max_encoding_message_size = Option.none;
}

abbrev link : Link Inside
link = Server.call (wire Inside) packet_messages server

abbrev client : CoordinatorServiceClient (wire Inside)
client = record { inner = link }

coordinator_call-handler_example :
    Client.release_lease (wire Inside) packet_messages client release (default, start)
    ≡ service.release_lease release (default, start)
unfolding release_lease
coordinator_call-handler_example =
    coordinator_call-handler (wire Inside) packet_messages client server (wire_carries Inside link)
      CoordinatorCarried.Method.release_lease release (default, start) refl tt tt

-- A lease that is taken over the wire.
taken :
    Client.take_lease (wire Inside) packet_messages client local (default, start)
    ≡ (ok (granted (Lease.random "l-1") [] []), (registered, connected))
unfolding Client.take_lease Server.call
taken =
    ap {A = Result Status TakeLeaseResponse × State (Process os) × Box}
      {B = Result Status TakeLeaseResponse × (State (Process os) × Box)}
      (λ x. (
        and_then (map_ok Packet.take_lease_response x.0) packet_messages.take_lease_response.decode,
        (x.1, x.2),
      ))
      take_lease_runs

pub replies_fit :
    (W : Type 0) (m : CoordinatorCarried.Method) (r : Result Status (CoordinatorCarried.ReplyOf m))
    → CoordinatorCarried.ReplyFits (wire W) packet_messages (λ b. Unit {0}) m r
replies_fit W CoordinatorCarried.Method.take_lease r = all_fit Packet.take_lease_response r
replies_fit W CoordinatorCarried.Method.keepalive r = all_fit Packet.keepalive_response r
replies_fit W CoordinatorCarried.Method.release_lease r = all_fit Packet.release_response r
replies_fit W CoordinatorCarried.Method.status r = all_fit Packet.status_response r

carried :
    (m : CoordinatorCarried.Method) (req : CoordinatorCarried.RequestOf m) (x : Inside)
    → IsCarried os box_codec "/run"
        (draws "l-1")
        (λ s. s)
        (wire Inside)
        packet_messages
        client
        server
        (wire_carries Inside link)
        m
        req
        x
carried m req x = record {
  is_ready = refl;
  fits = tt;
  reply_fits = replies_fit Inside m (CoordinatorCarried.handler service m req x).0;
}

take_lease-remote_example :
    (Client.status
        (wire Inside)
        packet_messages
        client
        (record { lease_id = "l-1" })
        (registered, connected)
      ≡ (ok (record { status = pos 2; outputs = []; messages = [] }), (registered, connected)))
    × (Client.keepalive
          (wire Inside)
          packet_messages
          client
          (record { lease_id = "l-1" })
          (registered, connected)
        ≡ (ok (record {}), (registered, connected)))
unfolding Lease.random Lease.into_string lease_status_number
take_lease-remote_example =
    take_lease-remote os box_codec "/run" (draws "l-1") (λ s. s) (wire Inside) packet_messages
      client server (wire_carries Inside link) refl local (granted (Lease.random "l-1") [] [])
      default registered start connected
      (carried CoordinatorCarried.Method.take_lease local (default, start))
      (carried CoordinatorCarried.Method.status (record { lease_id = "l-1" })
        (registered, connected))
      (carried CoordinatorCarried.Method.keepalive (record { lease_id = "l-1" })
        (registered, connected))
      taken
