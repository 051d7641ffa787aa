-- ===== src/PluginClient/Connects.antt =====
-- What `connect_with_retry` of src/coordinator/src/plugin_client.rs does, stated apart from its
-- loop: the ways in which it ends.
use rules_systemtest.Prelude.{
  ℕ, zero, suc, ◌+◌, ◌*◌, ◌/◌, ◌≤◌, ◌<◌, ◌≡◌, refl, String, Option, none, some, ◌∷◌, ◌⊎◌, inl, inr,
  arith, leb, Bool-cases,
}
use rules_systemtest.Result.{Result, ok, err, Error}
use rules_systemtest.Io.{continue}
use rules_systemtest.Os.{Os}
use rules_systemtest.PluginClient.Connect.{
  try_connect, exit_message, Round, retry_or_time_out, after_poll, after_attempt, connect_round,
  connect_loop, connect_fuel, connect_with_retry, next_round, or_stuck,
}

-- A monotonic clock that a sleep moves on: `tokio::time::Instant`.
pub record IsClock (os : Os) : Type 0 where
  pub sleeps : (d : ℕ) (w : os.World) → os.now w + d ≤ os.now (os.sleep d w)
  pub connects :
      (e : os.Endpoint) (path : String) (w : os.World)
      → os.now w ≤ os.now (os.connect_with_connector e path w).1
  pub polls : (child : os.Child) (w : os.World) → os.now w ≤ os.now (os.try_wait child w).1

module _ (os : Os) (child : os.Child) (path : String) (deadline : ℕ) where
  open os use {World, Child, Channel, ExitStatus}

  -- A run of the loop from a world: its outcome and the world that it leaves.
  pub data Connects : World → Result Error Channel → World → Type 0 where
    connected :
        {w w' : World} {channel : Channel}
        → try_connect os path w ≡ (ok channel, w')
        → Connects w (ok channel) w'
    poll_failed :
        {w w₁ w' : World} {e p : Error}
        → try_connect os path w ≡ (err e, w₁)
        → os.try_wait child w₁ ≡ (err p, w')
        → Connects w (err ("polling plugin process" ∷ p)) w'
    exited :
        {w w₁ w' : World} {e : Error} {status : ExitStatus}
        → try_connect os path w ≡ (err e, w₁)
        → os.try_wait child w₁ ≡ (ok (some status), w')
        → Connects w (err (exit_message os status path ∷ e)) w'
    expired :
        {w w₁ w' : World} {e : Error}
        → try_connect os path w ≡ (err e, w₁)
        → os.try_wait child w₁ ≡ (ok none, w')
        → deadline ≤ os.now w'
        → Connects w (err ("timed out connecting to plugin socket" ∷ e)) w'
    retried :
        {w w₁ w₂ w' : World} {e : Error} {r : Result Error Channel}
        → try_connect os path w ≡ (err e, w₁)
        → os.try_wait child w₁ ≡ (ok none, w₂)
        → os.now w₂ < deadline
        → Connects (os.sleep 50 w₂) r w'
        → Connects w r w'

  module _ (clock : IsClock os) where
    try_connect_clock : (w : World) → os.now w ≤ os.now (try_connect os path w).1
    unfolding try_connect
    try_connect_clock w = from_endpoint (os.endpoint "http://[::]:50051")
      where
        from_endpoint :
            (r : Result Error os.Endpoint)
            → os.now w ≤ os.now (continue r (λ e. os.connect_with_connector e path) w).1
        from_endpoint (ok e) = clock.connects e path w
        from_endpoint (err e) = omega arith

    -- A round that ends the loop is a run, and any other takes 50 ms and puts off a run.
    abbrev IsRound : World → Round os → Type 0
    IsRound w o =
        ((r : Result Error Channel) × (o.0 ≡ some r) × Connects w r o.1)
        ⊎ ((o.0 ≡ none)
            × (os.now w < deadline)
            × (os.now w + 50 ≤ os.now o.1)
            × ((r : Result Error Channel) (w' : World) → Connects o.1 r w' → Connects w r w'))

    retry_or_time_out-IsRound :
        (w w₁ w₂ : World) (e : Error)
        → try_connect os path w ≡ (err e, w₁)
        → os.try_wait child w₁ ≡ (ok none, w₂)
        → os.now w ≤ os.now w₂
        → IsRound w (retry_or_time_out os deadline e w₂)
    unfolding retry_or_time_out
    retry_or_time_out-IsRound w w₁ w₂ e h k c = elim (Bool-cases (leb deadline (os.now w₂))) [
      | inl late ↦ rw late (inl (_, refl, expired h k (ground arith)))
      | inr early ↦ rw early (
          inr (
            refl,
            ground arith,
            omega (arith, clock.sleeps 50 w₂),
            λ r w' d. retried h k (ground arith) d,
          ))
    ]

    after_poll-IsRound :
        (w w₁ : World) (e : Error) (polled : Result Error (Option ExitStatus)) (w₂ : World)
        → try_connect os path w ≡ (err e, w₁)
        → os.try_wait child w₁ ≡ (polled, w₂)
        → os.now w ≤ os.now w₂
        → IsRound w (after_poll os path deadline e polled w₂)
    unfolding after_poll
    after_poll-IsRound w w₁ e (err p) w₂ h k c = inl (_, refl, poll_failed h k)
    after_poll-IsRound w w₁ e (ok (some status)) w₂ h k c = inl (_, refl, exited h k)
    after_poll-IsRound w w₁ e (ok none) w₂ h k c = retry_or_time_out-IsRound w w₁ w₂ e h k c

    after_attempt-IsRound :
        (w : World) (attempt : Result Error Channel) (w₁ : World)
        → try_connect os path w ≡ (attempt, w₁)
        → os.now w ≤ os.now w₁
        → IsRound w (after_attempt os child path deadline attempt w₁)
    unfolding after_attempt
    after_attempt-IsRound w (ok channel) w₁ h c = inl (_, refl, connected h)
    after_attempt-IsRound w (err e) w₁ h c =
        after_poll-IsRound w w₁ e (os.try_wait child w₁).0 (os.try_wait child w₁).1 h refl
          (omega (arith, clock.polls child w₁))

    connect_round-IsRound : (w : World) → IsRound w (connect_round os child path deadline w)
    unfolding connect_round
    connect_round-IsRound w =
        after_attempt-IsRound w (try_connect os path w).0 (try_connect os path w).1 refl
          (try_connect_clock w)

    abbrev Runs : World → Option (Result Error Channel × World) → Type 0
    Runs w none = ⊥
    Runs w (some (r, w')) = Connects w r w'

    next_round-Runs :
        (fuel : ℕ) (w : World) (o : Round os)
        → IsRound w o
        → ((w' : World)
            → os.now w + 50 ≤ os.now w'
            → os.now w < deadline
            → Runs w' (connect_loop os fuel child path deadline w'))
        → Runs w (next_round os (connect_loop os fuel child path deadline) o.0 o.1)
    next_round-Runs fuel w o (inl (r, e, d)) ih = rw e d
    next_round-Runs fuel w o (inr (e, early, later, put_off)) ih =
        rw e
          (Runs-put_off (connect_loop os fuel child path deadline o.1) put_off (ih o.1 later early))
      where
        Runs-put_off :
            (x : Option (Result Error Channel × World))
            → ((r : Result Error Channel) (w' : World) → Connects o.1 r w' → Connects w r w')
            → Runs o.1 x
            → Runs w x
        Runs-put_off none f d = d
        Runs-put_off (some (r, w')) f d = f r w' d

    connect_loop-Runs :
        (fuel : ℕ) (w : World)
        → deadline ≤ os.now w + 50 * fuel
        → Runs w (connect_loop os (suc fuel) child path deadline w)
    unfolding connect_loop
    connect_loop-Runs zero w h =
        next_round-Runs zero w (connect_round os child path deadline w) (connect_round-IsRound w)
          (λ w' later early. absurd (omega arith))
    connect_loop-Runs (suc fuel) w h =
        next_round-Runs (suc fuel) w (connect_round os child path deadline w)
          (connect_round-IsRound w) (λ w' later early. connect_loop-Runs fuel w' (omega arith))

-- Where a sleep moves the clock on by its length and connecting and polling do not turn it back,
-- the retry loop ends: with a connection, with the error of polling the child, with the exit of
-- the child, or with a timeout after the deadline, in each case after rounds that failed, polled
-- and slept before the deadline.
pub connect_with_retry-Connects :
    (os : Os) (clock : IsClock os) (child : os.Child) (path : String) (timeout : ℕ) (w : os.World)
    → Connects os child path
        (os.now w + timeout)
        w
        (connect_with_retry os child path timeout w).0
        (connect_with_retry os child path timeout w).1
unfolding connect_with_retry
connect_with_retry-Connects os clock child path timeout w =
    or_stuck-Connects (connect_loop os (connect_fuel os timeout) child path (os.now w + timeout) w)
      (connect_loop-Runs os child path (os.now w + timeout) clock (suc (timeout / 50)) w
        (omega arith))
  where
    or_stuck-Connects :
        (x : Option (Result Error os.Channel × os.World))
        → Runs os child path (os.now w + timeout) clock w x
        → Connects os child path (os.now w + timeout) w (or_stuck os w x).0 (or_stuck os w x).1
    or_stuck-Connects (some (r, w')) d = d
    or_stuck-Connects none d = absurd d
