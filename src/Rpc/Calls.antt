-- ===== src/Rpc/Calls.antt =====
-- What the methods of the generated clients and the routers of the generated servers in
-- src/proto/systemtestrs/src/lib.rs have in common.
use Prim.Native.String.{◌++◌}
use rules_systemtest.Prelude.{ℕ, String, List, Option}
use rules_systemtest.Result.{Result, Status, unknown}
use rules_systemtest.Io.{Eff, or_status, ◌>>◌}
use rules_systemtest.Rpc.Tonic.{Tonic, Message}

-- `std::task::Poll`
pub data Poll (A : Type 0) : Type 0 where
  ready : A → Poll A
  pending : Poll A

module _ {W Channel : Type 0} (tonic : Tonic W Channel) where
  open tonic use {Body, ClientGrpc, ServerGrpc, Request, HttpResponse, EnabledCompressionEncodings}

  -- `format!("Service was not ready: {}", e.into())`
  abbrev pub not_ready : String → Status
  not_ready e = unknown ("Service was not ready: " ++ e)

  -- The request with the extension that names its method.
  abbrev pub named_request : {A : Type 0} → A → String → String → Request A
  named_request request service method =
      tonic.insert_extension (tonic.into_request request) (tonic.grpc_method service method)

  module _ {A B : Type 0} (request_message : Message Body A) (reply_message : Message Body B) where
    -- The body of a client's method with a single reply.
    unfoldable pub call_unary : ClientGrpc → A → String → String → String → Eff Status W B
    call_unary inner request path service method = do
      or_status (tonic.ready inner) not_ready
      tonic.client_unary request_message reply_message inner (named_request request service method)
          path

    -- The body of a client's method with a stream of replies.
    unfoldable pub call_streaming :
        ClientGrpc → A → String → String → String → Eff Status W (List (Result Status B))
    call_streaming inner request path service method = do
      or_status (tonic.ready inner) not_ready
      tonic.client_streaming request_message reply_message inner
          (named_request request service method) path

  -- `Grpc::new(codec).apply_compression_config(…).apply_max_message_size_config(…)`
  abbrev pub configured_grpc :
      EnabledCompressionEncodings → EnabledCompressionEncodings → Option ℕ → Option ℕ → ServerGrpc
  configured_grpc accept send max_decoding max_encoding =
      tonic.apply_max_message_size_config
        (tonic.apply_compression_config tonic.server_grpc accept send) max_decoding max_encoding

  -- The reply to a path of no method.
  unfoldable pub unimplemented_response : HttpResponse
  unimplemented_response =
      tonic.insert_header
        (tonic.insert_header tonic.empty_response tonic.grpc_status tonic.code_unimplemented)
        tonic.content_type tonic.grpc_content_type
