-- ===== src/PluginClient/Drains.antt =====
-- What `create_fixture` of src/coordinator/src/plugin_client.rs makes of a stream, stated apart
-- from its loop.
use Prim.Native.String.{◌++◌}
use rules_systemtest.Prelude.{
  ◌≡◌, refl, ◌∙◌, subst, ◌⊎◌, inl, inr, ◌↔◌, none, some, List, [], ◌∷◌, arith, Option-cases,
}
use rules_systemtest.Result.{Result, ok, err, Error}
use rules_systemtest.Os.{Os}
use rules_systemtest.Proto.{
  CreateProgressStatus, create_progress_unknown, create_progress_succeeded, create_progress_error,
  CreateProgress, FixtureResult,
}
use rules_systemtest.PluginClient.Create.{progress_status, drain}

-- A success or an error.
abbrev pub IsTerminal : CreateProgress → Type 0
IsTerminal p =
    (progress_status p ≡ create_progress_succeeded) ⊎ (progress_status p ≡ create_progress_error)

module _ (os : Os) where
  -- The first item that is terminal, broken or missing decides; what follows is never read.
  pub data Drains : List (Result Error CreateProgress) → Result Error FixtureResult → Type 0 where
    closed : Drains [] (err ("plugin closed CreateFixture stream without a terminal message" ∷ []))
    broken : {e : Error} {rest : List (Result Error CreateProgress)} → Drains (err e ∷ rest) (err e)
    created :
        {p : CreateProgress} {rest : List (Result Error CreateProgress)} (r : FixtureResult)
        → progress_status p ≡ create_progress_succeeded
        → p.result ≡ some r
        → Drains (ok p ∷ rest) (ok r)
    without_result :
        {p : CreateProgress} {rest : List (Result Error CreateProgress)}
        → progress_status p ≡ create_progress_succeeded
        → p.result ≡ none
        → Drains (ok p ∷ rest) (err ("CREATE_PROGRESS_SUCCEEDED with no result" ∷ []))
    failed :
        {p : CreateProgress} {rest : List (Result Error CreateProgress)}
        → progress_status p ≡ create_progress_error
        → Drains
            (ok p ∷ rest)
            (err (("plugin CreateFixture failed: " ++ os.debug_infos p.element_infos) ∷ []))
    skipped :
        {p : CreateProgress} {rest : List (Result Error CreateProgress)}
        {r : Result Error FixtureResult}
        → ¬ IsTerminal p
        → Drains rest r
        → Drains (ok p ∷ rest) r

  drain_step :
      (p : CreateProgress) (rest : List (Result Error CreateProgress)) (s : CreateProgressStatus)
      → progress_status p ≡ s
      → Drains rest (drain os rest)
      → Drains (ok p ∷ rest) (drain os (ok p ∷ rest))
  unfolding drain
  drain_step p rest create_progress_succeeded e ih = elim (Option-cases p.result) [
    | inl n ↦ simp (e, drain, n) (without_result e n)
    | inr (r, n) ↦ simp (e, drain, n) (created r e n)
  ]
  drain_step p rest create_progress_error e ih = rw (e, drain) (failed e)
  drain_step p rest create_progress_unknown e ih = rw (e, drain) (skipped (λ t. ground arith) ih)
  drain_step p rest _ e ih = rw (e, drain) (skipped (λ t. ground arith) ih)

  drain-Drains : (items : List (Result Error CreateProgress)) → Drains items (drain os items)
  unfolding drain
  drain-Drains [] = closed
  drain-Drains (err e ∷ rest) = broken
  drain-Drains (ok p ∷ rest) = drain_step p rest (progress_status p) refl (drain-Drains rest)

  drain_skips :
      (p : CreateProgress) (rest : List (Result Error CreateProgress))
      → ¬ IsTerminal p
      → drain os (ok p ∷ rest) ≡ drain os rest
  unfolding drain
  drain_skips p rest h = ground arith

  Drains-drain :
      {items : List (Result Error CreateProgress)} {r : Result Error FixtureResult}
      → Drains items r
      → drain os items ≡ r
  unfolding drain
  Drains-drain closed = refl
  Drains-drain broken = refl
  Drains-drain (created r e n) = rw (e, drain, n)
  Drains-drain (without_result e n) = rw (e, drain, n)
  Drains-drain (failed e) = rw (e, drain)
  Drains-drain (skipped {p = p} {rest = rest} {r = r} h d) = drain_skips p rest h ∙ Drains-drain d

  -- The loop over a CreateProgress stream ends with an outcome exactly when the first item that is
  -- a success, an error or a broken read, or the end of the stream, decides on that outcome.
  pub drain-eq_iff :
      (items : List (Result Error CreateProgress)) (r : Result Error FixtureResult)
      → (drain os items ≡ r) ↔ Drains items r
  drain-eq_iff items r = (λ e. subst (Drains items) e (drain-Drains items), Drains-drain)
