-- ===== src/Tests/Wire.antt =====
-- A connection that hands messages over as they are: a channel is the service at its other end.
use rules_systemtest.Prelude.{
  All, ℕ, ◌≢◌, false, ◌==◌, string_eq, String, List, map, [], ◌∷◌, ◌≡◌, refl,
}
use rules_systemtest.Result.{Result, ok, err, Status}
use rules_systemtest.Rpc.Tonic.{Tonic}
use rules_systemtest.Rpc.Carried.{Carries, AllOk, and_then, on_decoded}
use rules_systemtest.Result.{map_ok}
use rules_systemtest.Tests.Packets.{Packet, wrong}

pub record Sent : Type 0 where
  pub path : String
  pub body : Packet

pub data Reply : Type 0 where
  one : Result Status Packet → Reply
  many : Result Status (List (Result Status Packet)) → Reply
  headers : List (String × String) → Reply

abbrev pub with_header : Reply → String → String → Reply
with_header (headers hs) k v = headers ((k, v) ∷ hs)
with_header r k v = r

abbrev pub read_one : Reply → Result Status Packet
read_one (one r) = r
read_one (many r) = wrong
read_one (headers hs) = wrong

abbrev pub read_many : Reply → Result Status (List (Result Status Packet))
read_many (one r) = wrong
read_many (many r) = r
read_many (headers hs) = wrong

module _ (W : Type 0) where
  abbrev pub Link : Type 0
  Link = Sent → W → Reply × W

  abbrev pub wire : Tonic W Link
  wire = record {
    Body = Packet;
    HttpRequest = Sent;
    HttpResponse = Reply;
    HeaderName = String;
    HeaderValue = String;
    Uri = String;
    uri_path = λ r. r.path;
    empty_response = headers [];
    insert_header = with_header;
    grpc_status = "grpc-status";
    code_unimplemented = "12";
    content_type = "content-type";
    grpc_content_type = "application/grpc";
    CompressionEncoding = Unit {0};
    EnabledCompressionEncodings = ℕ;
    no_encodings = 0;
    enable = λ n e. 1;
    Request = λ A. A;
    GrpcMethod = String × String;
    grpc_method = λ s m. (s, m);
    into_request = λ a. a;
    insert_extension = λ a m. a;
    Interceptor = Unit {0};
    InterceptedService = λ S. S;
    intercepted_service = λ s i. s;
    ClientGrpc = Link;
    client_grpc_intercepted = λ g. g;
    client_grpc = λ g. g;
    client_with_origin = λ g u. g;
    client_send_compressed = λ g e. g;
    client_accept_compressed = λ g e. g;
    client_max_decoding_message_size = λ g n. g;
    client_max_encoding_message_size = λ g n. g;
    ready = λ g w. (ok tt, w);
    client_unary = λ m n g a path w.
        let (resp, w') = g (record { path = path; body = m.encode a }) w in
        (and_then (read_one resp) n.decode, w');
    client_streaming = λ m n g a path w.
        let (resp, w') = g (record { path = path; body = m.encode a }) w in
        (map_ok (map (λ r. and_then r n.decode)) (read_many resp), w');
    Endpoint = String;
    endpoint = λ s. ok s;
    connect = λ e w. (err ("no network" ∷ []), w);
    ServerGrpc = Unit {0};
    server_grpc = tt;
    apply_compression_config = λ g a b. g;
    apply_max_message_size_config = λ g a b. g;
    server_unary = λ m n g f req w.
        let (r, w') = on_decoded f (m.decode req.body) w in (one (map_ok n.encode r), w');
    server_streaming = λ m n g f req w.
        let (r, w') = on_decoded f (m.decode req.body) w in
        (many (map_ok (map (map_ok n.encode)) r), w');
  }

  -- The connection carries every message.
  abbrev pub wire_carries : (call : Link) → Carries wire call tt call
  wire_carries call = record {
    Fits = λ b. Unit {0};
    send = λ path b. record { path = path; body = b };
    respond = one;
    receive = read_one;
    respond_all = many;
    receive_all = read_many;
    sent_path = λ path b. refl;
    receive-respond = λ r h. refl;
    receive_all-respond_all = λ r h. refl;
    client_unary_law = λ m n a method path w h. refl;
    server_unary_law = λ m n f path b w h. refl;
    client_streaming_law = λ m n a method path w h. refl;
    server_streaming_law = λ m n f path b w h. refl;
  }

-- Every message fits.
pub all_fit :
    {A : Type 0} (encode : A → Packet) (r : Result Status A)
    → AllOk (λ b. Unit {0}) (map_ok encode r)
all_fit encode (ok a) = tt
all_fit encode (err e) = tt

pub items_fit :
    {A : Type 0} (encode : A → Packet) (l : List (Result Status A))
    → All (AllOk (λ b. Unit {0})) (map (map_ok encode) l)
items_fit encode [] = tt
items_fit encode (x ∷ xs) = (all_fit encode x, items_fit encode xs)

pub stream_fits :
    {A : Type 0} (encode : A → Packet) (r : Result Status (List (Result Status A)))
    → AllOk (All (AllOk (λ b. Unit {0}))) (map_ok (map (map_ok encode)) r)
stream_fits encode (ok l) = items_fit encode l
stream_fits encode (err e) = tt

pub differ : (a b : String) → (a == b) ≡ false → a ≢ b
differ a b h e = cc (h, (string_eq.beq_iff a b).1 e)
