-- ===== src/Rpc/Carried.antt =====
-- What tonic and prost document of a call over a connection, and what then becomes of a call by a
-- generated client to a generated server.
use rules_systemtest.Prelude.{All, String, List, [], ◌∷◌, map, ◌≡◌, refl, ap, ◌∙◌}
use rules_systemtest.Result.{Result, ok, err, Status, map_ok}
use rules_systemtest.Io.{Eff}
use rules_systemtest.Rpc.Tonic.{Tonic, Message}
use rules_systemtest.Rpc.Calls.{call_unary, call_streaming}

-- `r.and_then(f)`
abbrev pub and_then : {E A B : Type 0} → Result E A → (A → Result E B) → Result E B
and_then (ok a) f = f a
and_then (err e) f = err e

abbrev pub AllOk : {A : Type 0} → (A → Type 0) → Result Status A → Type 0
AllOk P (ok a) = P a
AllOk P (err e) = Unit {0}

-- A handler behind a decoded body.
abbrev pub on_decoded : {W A C : Type 0} → (A → Eff Status W C) → Result Status A → Eff Status W C
on_decoded f (ok a) w = f a w
on_decoded f (err e) w = (err e, w)

module _ {W Channel : Type 0} (tonic : Tonic W Channel) where
  open tonic use {Body, ClientGrpc, ServerGrpc, HttpRequest, HttpResponse, GrpcMethod}

  -- The client `g` is connected to the service `call`, whose handlers run under `sg`. Messages that
  -- fit in the limits of both sides are carried as they are; the extensions of a request stay behind.
  pub record Carries (g : ClientGrpc) (sg : ServerGrpc) (call : HttpRequest → W → HttpResponse × W)
      : Type 1 where
    pub Fits : Body → Type 0
    pub send : String → Body → HttpRequest
    pub respond : Result Status Body → HttpResponse
    pub receive : HttpResponse → Result Status Body
    pub respond_all : Result Status (List (Result Status Body)) → HttpResponse
    pub receive_all : HttpResponse → Result Status (List (Result Status Body))
    pub sent_path : (path : String) (b : Body) → tonic.uri_path (send path b) ≡ path
    pub receive-respond : (r : Result Status Body) → AllOk Fits r → receive (respond r) ≡ r
    pub receive_all-respond_all :
        (r : Result Status (List (Result Status Body)))
        → AllOk (All (AllOk Fits)) r
        → receive_all (respond_all r) ≡ r
    pub client_unary_law :
        {A B : Type 0} (m : Message Body A) (n : Message Body B) (a : A) (method : GrpcMethod)
        (path : String) (w : W)
        → Fits (m.encode a)
        → tonic.client_unary m n g (tonic.insert_extension (tonic.into_request a) method) path w ≡ (
          and_then (receive (call (send path (m.encode a)) w).0) n.decode,
          (call (send path (m.encode a)) w).1,
        )
    pub server_unary_law :
        {A B : Type 0} (m : Message Body A) (n : Message Body B) (f : A → Eff Status W B)
        (path : String) (b : Body) (w : W)
        → Fits b
        → tonic.server_unary m n sg f (send path b) w ≡ (
          respond (map_ok n.encode (on_decoded f (m.decode b) w).0),
          (on_decoded f (m.decode b) w).1,
        )
    pub client_streaming_law :
        {A B : Type 0} (m : Message Body A) (n : Message Body B) (a : A) (method : GrpcMethod)
        (path : String) (w : W)
        → Fits (m.encode a)
        → tonic.client_streaming m n g (tonic.insert_extension (tonic.into_request a) method) path w
          ≡ (
            map_ok
                (map (λ r. and_then r n.decode))
                (receive_all (call (send path (m.encode a)) w).0),
            (call (send path (m.encode a)) w).1,
          )
    pub server_streaming_law :
        {A B : Type 0} (m : Message Body A) (n : Message Body B)
        (f : A → Eff Status W (List (Result Status B))) (path : String) (b : Body) (w : W)
        → Fits b
        → tonic.server_streaming m n sg f (send path b) w ≡ (
          respond_all (map_ok (map (map_ok n.encode)) (on_decoded f (m.decode b) w).0),
          (on_decoded f (m.decode b) w).1,
        )

  module _ {A B : Type 0} (m : Message Body A) (n : Message Body B) where
    decode_encoded : (r : Result Status B) → and_then (map_ok n.encode r) n.decode ≡ r
    decode_encoded (ok b) = n.decode-encode b
    decode_encoded (err e) = refl

    decode_all :
        (r : List (Result Status B)) → map (λ x. and_then x n.decode) (map (map_ok n.encode) r) ≡ r
    decode_all [] = refl
    decode_all (x ∷ xs) = rw (decode_encoded x, decode_all xs) refl

    decode_stream :
        (r : Result Status (List (Result Status B)))
        → map_ok (map (λ x. and_then x n.decode)) (map_ok (map (map_ok n.encode)) r) ≡ r
    decode_stream (ok l) = ap ok (decode_all l)
    decode_stream (err e) = refl

    module _ {g : ClientGrpc} {sg : ServerGrpc} {call : HttpRequest → W → HttpResponse × W}
        (c : Carries g sg call) (path service method : String) (a : A) (w : W)
        (is_ready : tonic.ready g w ≡ (ok tt, w)) (fits : c.Fits (m.encode a)) where
      -- A call that is routed to the handler `f` is a call of `f`.
      pub call_unary_carried :
          (f : A → Eff Status W B)
          → call (c.send path (m.encode a)) w
            ≡ tonic.server_unary m n sg f (c.send path (m.encode a)) w
          → AllOk c.Fits (map_ok n.encode (f a w).0)
          → call_unary tonic m n g a path service method w ≡ f a w
      unfolding call_unary
      call_unary_carried f routed reply_fits = rw is_ready (
          c.client_unary_law m n a (tonic.grpc_method service method) path w fits
          ∙ ap {B = Result Status B × W} (λ t. (and_then (c.receive t.0) n.decode, t.1)) served
          ∙ ap {B = Result Status B × W} (λ r. (and_then r n.decode, (f a w).1))
              (c.receive-respond (map_ok n.encode (f a w).0) reply_fits)
          ∙ ap {B = Result Status B × W} (λ r. (r, (f a w).1)) (decode_encoded (f a w).0))
        where
          served :
              call (c.send path (m.encode a)) w ≡ (c.respond (map_ok n.encode (f a w).0), (f a w).1)
          served =
              routed
              ∙ c.server_unary_law m n f path (m.encode a) w fits
              ∙ ap {B = HttpResponse × W}
                  (λ d. (c.respond (map_ok n.encode (on_decoded f d w).0), (on_decoded f d w).1))
                  (m.decode-encode a)

      -- The same of a call with a stream of replies.
      pub call_streaming_carried :
          (f : A → Eff Status W (List (Result Status B)))
          → call (c.send path (m.encode a)) w
            ≡ tonic.server_streaming m n sg f (c.send path (m.encode a)) w
          → AllOk (All (AllOk c.Fits)) (map_ok (map (map_ok n.encode)) (f a w).0)
          → call_streaming tonic m n g a path service method w ≡ f a w
      unfolding call_streaming
      call_streaming_carried f routed reply_fits = rw is_ready (
          c.client_streaming_law m n a (tonic.grpc_method service method) path w fits
          ∙ ap {B = Result Status (List (Result Status B)) × W}
              (λ t. (map_ok (map (λ r. and_then r n.decode)) (c.receive_all t.0), t.1)) served
          ∙ ap {B = Result Status (List (Result Status B)) × W}
              (λ r. (map_ok (map (λ x. and_then x n.decode)) r, (f a w).1))
              (c.receive_all-respond_all (map_ok (map (map_ok n.encode)) (f a w).0) reply_fits)
          ∙ ap {B = Result Status (List (Result Status B)) × W} (λ r. (r, (f a w).1))
              (decode_stream (f a w).0))
        where
          served :
              call (c.send path (m.encode a)) w
              ≡ (c.respond_all (map_ok (map (map_ok n.encode)) (f a w).0), (f a w).1)
          served =
              routed
              ∙ c.server_streaming_law m n f path (m.encode a) w fits
              ∙ ap {B = HttpResponse × W}
                  (λ d. (
                    c.respond_all (map_ok (map (map_ok n.encode)) (on_decoded f d w).0),
                    (on_decoded f d w).1,
                  ))
                  (m.decode-encode a)
