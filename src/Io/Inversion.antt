-- ===== src/Io/Inversion.antt =====
-- What a successful action did on its way.
use rules_systemtest.Prelude.{◌≡◌, refl, ap, ◌⊎◌, inl, inr}
use rules_systemtest.Result.{Result, ok, err, map_err}
use rules_systemtest.Io.{Eff, continue, on_error, on_result, or_status, pure, ◌>>=◌}

module _ {E W A : Type 0} where
  -- What an action did, with the world that it left.
  pub Result-cases :
      (r : Result E A × W)
      → ((a : A) × (w : W) × (r ≡ (ok a, w))) ⊎ ((e : E) × (w : W) × (r ≡ (err e, w)))
  Result-cases (ok a, w) = inl (a, w, refl)
  Result-cases (err e, w) = inr (e, w, refl)

module _ {E W A B : Type 0} where
  continue-ok :
      (r : Result E A) (f : A → Eff E W B) (w : W) {b : B} {w' : W}
      → continue r f w ≡ (ok b, w')
      → (a : A) × (r ≡ ok a) × (f a w ≡ (ok b, w'))
  continue-ok (ok a) f w h = (a, refl, h)
  continue-ok (err e) f w h = cc

  -- A sequence succeeds where both of its parts do.
  pub bind-ok :
      (m : Eff E W A) (f : A → Eff E W B) (w : W) {b : B} {w' : W}
      → (m >>= f) w ≡ (ok b, w')
      → (a : A) × (w₁ : W) × (m w ≡ (ok a, w₁)) × (f a w₁ ≡ (ok b, w'))
  bind-ok m f w h =
      let (a, e, g) = continue-ok (m w).0 f (m w).1 h in
      (a, (m w).1, ap {B = Result E A × W} (λ r. (r, (m w).1)) e, g)

module _ {E F W A : Type 0} where
  map_err-ok :
      (r : Result E A) (f : E → F) (u : W) {a : A} {w' : W}
      → ◌≡◌ {A = Result F A × W} (map_err f r, u) (ok a, w')
      → ◌≡◌ {A = Result E A × W} (r, u) (ok a, w')
  map_err-ok (ok b) f u h = cc
  map_err-ok (err e) f u h = cc

  pub or_status-ok :
      (m : Eff E W A) (f : E → F) (w : W) {a : A} {w' : W}
      → or_status m f w ≡ (ok a, w')
      → m w ≡ (ok a, w')
  or_status-ok m f w h = map_err-ok (m w).0 f (m w).1 h

module _ {E W A : Type 0} where
  on_result-ok :
      (r : Result E A) (f : W → W) (u : W) {a : A} {w' : W}
      → on_result r f u ≡ (ok a, w')
      → ◌≡◌ {A = Result E A × W} (r, u) (ok a, w')
  on_result-ok (ok b) f u h = h
  on_result-ok (err e) f u h = cc

  pub on_error-ok :
      (m : Eff E W A) (f : W → W) (w : W) {a : A} {w' : W}
      → on_error m f w ≡ (ok a, w')
      → m w ≡ (ok a, w')
  on_error-ok m f w h = on_result-ok (m w).0 f (m w).1 h

  on_result-err :
      (r : Result E A) (f : W → W) (u : W) {e : E} {w' : W}
      → on_result r f u ≡ (err e, w')
      → (r ≡ err e) × (w' ≡ f u)
  on_result-err (ok b) f u h = cc
  on_result-err (err d) f u h = (cc, cc)

  -- A failing action leaves what its cleanup makes of a world.
  pub on_error-err :
      (m : Eff E W A) (f : W → W) (w : W) {e : E} {w' : W}
      → on_error m f w ≡ (err e, w')
      → ((m w).0 ≡ err e) × (w' ≡ f (m w).1)
  on_error-err m f w h = on_result-err (m w).0 f (m w).1 h

module _ {E W A B : Type 0} where
  continue_pure-err :
      (r : Result E A) (g : A → B) (u : W) {e : E} {w' : W}
      → continue r (λ a. pure (g a)) u ≡ (err e, w')
      → ◌≡◌ {A = Result E A × W} (r, u) (err e, w')
  continue_pure-err (ok a) g u h = cc
  continue_pure-err (err d) g u h = cc

  -- An action that ends by a value at hand fails where the action before it does.
  pub bind_pure-err :
      (m : Eff E W A) (g : A → B) (w : W) {e : E} {w' : W}
      → (m >>= λ a. pure (g a)) w ≡ (err e, w')
      → m w ≡ (err e, w')
  bind_pure-err m g w h = continue_pure-err (m w).0 g (m w).1 h

  continue-pure-ok :
      (r : Result E A) (g : A → B) (u : W) {b : B} {w' : W}
      → continue r (λ a. pure (g a)) u ≡ (ok b, w')
      → (a : A) × (◌≡◌ {A = Result E A × W} (r, u) (ok a, w')) × (g a ≡ b)
  continue-pure-ok (ok a) g u h = (a, cc, cc)
  continue-pure-ok (err d) g u h = cc

  pub bind_pure-ok :
      (m : Eff E W A) (g : A → B) (w : W) {b : B} {w' : W}
      → (m >>= λ a. pure (g a)) w ≡ (ok b, w')
      → (a : A) × (m w ≡ (ok a, w')) × (g a ≡ b)
  bind_pure-ok m g w h = continue-pure-ok (m w).0 g (m w).1 h
