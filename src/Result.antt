-- ===== src/Result.antt =====
-- Rust's `Result`, the errors of `anyhow` as chains of messages, and the statuses of tonic that the
-- coordinator (src/coordinator/src/coordinator.rs) answers with.
use Prim.Native.String.{◌++◌}
use rules_systemtest.Prelude.{String, List, [], ◌∷◌, Option, none, some}

pub data Result {ℓ} (E A : Type ℓ) : Type ℓ where
  ok : A → Result E A
  err : E → Result E A

infixl 5 ◌>>=◌
abbrev pub ◌>>=◌ {ℓ} : {E A B : Type ℓ} → Result E A → (A → Result E B) → Result E B
ok a >>= f = f a
err e >>= f = err e

-- `r.map_err(f)`
abbrev pub map_err {ℓ} : {E F A : Type ℓ} → (E → F) → Result E A → Result F A
map_err f (ok a) = ok a
map_err f (err e) = err (f e)

-- `r.map(f)`
abbrev pub map_ok {ℓ} : {E A B : Type ℓ} → (A → B) → Result E A → Result E B
map_ok f (ok a) = ok (f a)
map_ok f (err e) = err e

-- `o.ok_or_else(|| e)`
abbrev pub ok_or_else {ℓ} : {E A : Type ℓ} → Option A → E → Result E A
ok_or_else none e = err e
ok_or_else (some a) e = ok a

-- `anyhow::Error`: its messages, the outermost context first.
abbrev pub Error : Type 0
Error = List String

-- `r.with_context(|| c)`
abbrev pub with_context : {A : Type 0} → Result Error A → String → Result Error A
with_context r c = map_err (λ e. c ∷ e) r

-- `{e:#}`: the messages, joined by a colon.
unfoldable pub alternate : Error → String
alternate [] = ""
alternate (m ∷ []) = m
alternate (m ∷ n ∷ e) = m ++ (": " ++ alternate (n ∷ e))

-- The constructors of `tonic::Status` that the services and the generated clients use.
pub data Status : Type 0 where
  invalid_argument unimplemented internal not_found unknown : String → Status

-- `Status::internal(format!("{what}: {e:#}"))`
unfoldable pub internal_error : String → Error → Status
internal_error what e = internal (what ++ (": " ++ alternate e))
