-- ===== src/Rpc/Tonic.antt =====
-- What the generated code of src/proto/systemtestrs/src/lib.rs takes from prost, http and tonic, as
-- one interface over the world `W` of the service and its channels `Channel`. Nothing of it stands
-- under src/.
use rules_systemtest.Prelude.{ℕ, String, List, Option, ◌≡◌}
use rules_systemtest.Result.{Result, ok, Error, Status}
use rules_systemtest.Io.{Eff, Io}

-- `prost::Message`: a message as the body of a request or reply.
pub record Message (Body A : Type 0) : Type 0 where
  pub encode : A → Body
  pub decode : Body → Result Status A
  pub decode-encode : (a : A) → decode (encode a) ≡ ok a

pub record Tonic (W Channel : Type 0) : Type 1 where
  pub Body : Type 0
  -- `http`
  pub HttpRequest : Type 0
  pub HttpResponse : Type 0
  pub HeaderName : Type 0
  pub HeaderValue : Type 0
  pub Uri : Type 0
  pub uri_path : HttpRequest → String
  pub empty_response : HttpResponse
  pub insert_header : HttpResponse → HeaderName → HeaderValue → HttpResponse
  -- `Status::GRPC_STATUS`, `Code::Unimplemented`, `CONTENT_TYPE` and `GRPC_CONTENT_TYPE`
  pub grpc_status : HeaderName
  pub code_unimplemented : HeaderValue
  pub content_type : HeaderName
  pub grpc_content_type : HeaderValue
  -- compression
  pub CompressionEncoding : Type 0
  pub EnabledCompressionEncodings : Type 0
  pub no_encodings : EnabledCompressionEncodings
  pub enable : EnabledCompressionEncodings → CompressionEncoding → EnabledCompressionEncodings
  -- `tonic::Request` and its extensions
  pub Request : Type 0 → Type 0
  pub GrpcMethod : Type 0
  pub grpc_method : String → String → GrpcMethod
  pub into_request : {A : Type 0} → A → Request A
  pub insert_extension : {A : Type 0} → Request A → GrpcMethod → Request A
  -- `InterceptedService`, of a channel or of a server
  pub Interceptor : Type 0
  pub InterceptedService : Type 0 → Type 0
  pub intercepted_service : {S : Type 0} → S → Interceptor → InterceptedService S
  -- `tonic::client::Grpc`, its builders and its calls; an error of `ready` is its display
  pub ClientGrpc : Type 0
  pub client_grpc : Channel → ClientGrpc
  pub client_grpc_intercepted : InterceptedService Channel → ClientGrpc
  pub client_with_origin : Channel → Uri → ClientGrpc
  pub client_send_compressed : ClientGrpc → CompressionEncoding → ClientGrpc
  pub client_accept_compressed : ClientGrpc → CompressionEncoding → ClientGrpc
  pub client_max_decoding_message_size : ClientGrpc → ℕ → ClientGrpc
  pub client_max_encoding_message_size : ClientGrpc → ℕ → ClientGrpc
  pub ready : ClientGrpc → Eff String W (Unit {0})
  pub client_unary :
      {A B : Type 0}
      → Message Body A
      → Message Body B
      → ClientGrpc
      → Request A
      → String
      → Eff Status W B
  pub client_streaming :
      {A B : Type 0}
      → Message Body A
      → Message Body B
      → ClientGrpc
      → Request A
      → String
      → Eff Status W (List (Result Status B))
  -- `tonic::transport::Endpoint`
  pub Endpoint : Type 0
  pub endpoint : String → Result Error Endpoint
  pub connect : Endpoint → Io W Channel
  -- `tonic::server::Grpc`, its configuration and what it makes of a handler
  pub ServerGrpc : Type 0
  pub server_grpc : ServerGrpc
  pub apply_compression_config :
      ServerGrpc → EnabledCompressionEncodings → EnabledCompressionEncodings → ServerGrpc
  pub apply_max_message_size_config : ServerGrpc → Option ℕ → Option ℕ → ServerGrpc
  pub server_unary :
      {A B : Type 0}
      → Message Body A
      → Message Body B
      → ServerGrpc
      → (A → Eff Status W B)
      → HttpRequest
      → W
      → HttpResponse × W
  pub server_streaming :
      {A B : Type 0}
      → Message Body A
      → Message Body B
      → ServerGrpc
      → (A → Eff Status W (List (Result Status B)))
      → HttpRequest
      → W
      → HttpResponse × W
