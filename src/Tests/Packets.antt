-- ===== src/Tests/Packets.antt =====
-- The messages as bodies that keep them.
use rules_systemtest.Prelude.{refl}
use rules_systemtest.Result.{Result, ok, err, Status, internal}
use rules_systemtest.Proto.{
  TakeLeaseRequest, TakeLeaseResponse, KeepaliveRequest, KeepaliveResponse, ReleaseRequest,
  ReleaseResponse, StatusRequest, StatusResponse, Empty, DescribeResponses, CreateRequest,
  ResourcePool, ResourceRequests, CreateProgress, DestroyRequest, DestroyResponse,
  HealthCheckRequest, HealthCheckResponse,
}
use rules_systemtest.Rpc.CoordinatorClient.{CoordinatorMessages}
use rules_systemtest.Rpc.PluginClient.{PluginMessages}

-- A body is a message with its type.
pub data Packet : Type 0 where
  take_lease_request : TakeLeaseRequest → Packet
  take_lease_response : TakeLeaseResponse → Packet
  keepalive_request : KeepaliveRequest → Packet
  keepalive_response : KeepaliveResponse → Packet
  release_request : ReleaseRequest → Packet
  release_response : ReleaseResponse → Packet
  status_request : StatusRequest → Packet
  status_response : StatusResponse → Packet
  empty : Empty → Packet
  describe_responses : DescribeResponses → Packet
  create_request : CreateRequest → Packet
  resource_pool : ResourcePool → Packet
  resource_requests : ResourceRequests → Packet
  create_progress : CreateProgress → Packet
  destroy_request : DestroyRequest → Packet
  destroy_response : DestroyResponse → Packet
  health_check_request : HealthCheckRequest → Packet
  health_check_response : HealthCheckResponse → Packet

abbrev pub wrong : {A : Type 0} → Result Status A
wrong = err (internal "wrong message")

abbrev pub packet_messages : CoordinatorMessages Packet
packet_messages = record {
  take_lease_request = record {
    encode = λ a. Packet.take_lease_request a;
    decode = λ b. elim b [ Packet.take_lease_request a ↦ ok a | _ ↦ wrong ];
    decode-encode = λ a. refl;
  };
  take_lease_response = record {
    encode = λ a. Packet.take_lease_response a;
    decode = λ b. elim b [ Packet.take_lease_response a ↦ ok a | _ ↦ wrong ];
    decode-encode = λ a. refl;
  };
  keepalive_request = record {
    encode = λ a. Packet.keepalive_request a;
    decode = λ b. elim b [ Packet.keepalive_request a ↦ ok a | _ ↦ wrong ];
    decode-encode = λ a. refl;
  };
  keepalive_response = record {
    encode = λ a. Packet.keepalive_response a;
    decode = λ b. elim b [ Packet.keepalive_response a ↦ ok a | _ ↦ wrong ];
    decode-encode = λ a. refl;
  };
  release_request = record {
    encode = λ a. Packet.release_request a;
    decode = λ b. elim b [ Packet.release_request a ↦ ok a | _ ↦ wrong ];
    decode-encode = λ a. refl;
  };
  release_response = record {
    encode = λ a. Packet.release_response a;
    decode = λ b. elim b [ Packet.release_response a ↦ ok a | _ ↦ wrong ];
    decode-encode = λ a. refl;
  };
  status_request = record {
    encode = λ a. Packet.status_request a;
    decode = λ b. elim b [ Packet.status_request a ↦ ok a | _ ↦ wrong ];
    decode-encode = λ a. refl;
  };
  status_response = record {
    encode = λ a. Packet.status_response a;
    decode = λ b. elim b [ Packet.status_response a ↦ ok a | _ ↦ wrong ];
    decode-encode = λ a. refl;
  };
}

abbrev pub packet_plugin_messages : PluginMessages Packet
packet_plugin_messages = record {
  empty = record {
    encode = λ a. Packet.empty a;
    decode = λ b. elim b [ Packet.empty a ↦ ok a | _ ↦ wrong ];
    decode-encode = λ a. refl;
  };
  describe_responses = record {
    encode = λ a. Packet.describe_responses a;
    decode = λ b. elim b [ Packet.describe_responses a ↦ ok a | _ ↦ wrong ];
    decode-encode = λ a. refl;
  };
  create_request = record {
    encode = λ a. Packet.create_request a;
    decode = λ b. elim b [ Packet.create_request a ↦ ok a | _ ↦ wrong ];
    decode-encode = λ a. refl;
  };
  resource_pool = record {
    encode = λ a. Packet.resource_pool a;
    decode = λ b. elim b [ Packet.resource_pool a ↦ ok a | _ ↦ wrong ];
    decode-encode = λ a. refl;
  };
  resource_requests = record {
    encode = λ a. Packet.resource_requests a;
    decode = λ b. elim b [ Packet.resource_requests a ↦ ok a | _ ↦ wrong ];
    decode-encode = λ a. refl;
  };
  create_progress = record {
    encode = λ a. Packet.create_progress a;
    decode = λ b. elim b [ Packet.create_progress a ↦ ok a | _ ↦ wrong ];
    decode-encode = λ a. refl;
  };
  destroy_request = record {
    encode = λ a. Packet.destroy_request a;
    decode = λ b. elim b [ Packet.destroy_request a ↦ ok a | _ ↦ wrong ];
    decode-encode = λ a. refl;
  };
  destroy_response = record {
    encode = λ a. Packet.destroy_response a;
    decode = λ b. elim b [ Packet.destroy_response a ↦ ok a | _ ↦ wrong ];
    decode-encode = λ a. refl;
  };
  health_check_request = record {
    encode = λ a. Packet.health_check_request a;
    decode = λ b. elim b [ Packet.health_check_request a ↦ ok a | _ ↦ wrong ];
    decode-encode = λ a. refl;
  };
  health_check_response = record {
    encode = λ a. Packet.health_check_response a;
    decode = λ b. elim b [ Packet.health_check_response a ↦ ok a | _ ↦ wrong ];
    decode-encode = λ a. refl;
  };
}
