-- ===== src/Io.antt =====
-- Fallible actions on the world outside of the process: the async functions of the services, with
-- an `anyhow::Error` (`Io`) or a status (`Eff Status`) for their error. What an action did before
-- it failed stays done.
pub mod Inversion
use rules_systemtest.Prelude.{String}
use rules_systemtest.Result.{Result, ok, err, Error, map_err, with_context}

abbrev pub Eff : Type 0 → Type 0 → Type 0 → Type 0
Eff E W A = W → Result E A × W

abbrev pub Io : Type 0 → Type 0 → Type 0
Io W A = Eff Error W A

-- `m.with_context(|| c)`
abbrev pub context : {W A : Type 0} → Io W A → String → Io W A
context m c w = (with_context (m w).0 c, (m w).1)

module _ {E W A : Type 0} where
  abbrev pub pure : A → Eff E W A
  pure a w = (ok a, w)

  abbrev pub fail : E → Eff E W A
  fail e w = (err e, w)

  -- A result that is at hand, followed by `?`.
  abbrev pub lift : Result E A → Eff E W A
  lift r w = (r, w)

  abbrev pub on_result : Result E A → (W → W) → Eff E W A
  on_result (ok a) f w = (ok a, w)
  on_result (err e) f w = (err e, f w)

  -- What a failing action still does on its way out: the drop of a value that its caller owns.
  abbrev pub on_error : Eff E W A → (W → W) → Eff E W A
  on_error m f w = on_result (m w).0 f (m w).1

-- `m.map_err(f)`
abbrev pub or_status : {E F W A : Type 0} → Eff E W A → (E → F) → Eff F W A
or_status m f w = (map_err f (m w).0, (m w).1)

-- `let _ = m;`
abbrev pub ignore : {E F W A : Type 0} → Eff E W A → Eff F W (Unit {0})
ignore m w = (ok tt, (m w).1)

-- An effect that cannot fail.
abbrev pub effect : {E W : Type 0} → (W → W) → Eff E W (Unit {0})
effect f w = (ok tt, f w)

module _ {E W A B : Type 0} where
  abbrev pub continue : Result E A → (A → Eff E W B) → Eff E W B
  continue (ok a) f w = f a w
  continue (err e) f w = (err e, w)

  infixl 5 ◌>>=◌ ◌>>◌
  abbrev pub ◌>>=◌ : Eff E W A → (A → Eff E W B) → Eff E W B
  ◌>>=◌ m f w = continue (m w).0 f (m w).1

  abbrev pub ◌>>◌ : Eff E W A → Eff E W B → Eff E W B
  m >> k = m >>= λ _. k
