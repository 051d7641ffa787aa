-- ===== src/PluginClient/InTime.antt =====
-- How long `connect_with_retry` of src/coordinator/src/plugin_client.rs takes.
use rules_systemtest.Prelude.{ℕ, ◌+◌, ◌*◌, ◌≤◌, ◌≡◌, String, Option, arith, ap}
use rules_systemtest.Result.{Result, ok, err, Error}
use rules_systemtest.Io.{continue}
use rules_systemtest.Os.{Os}
use rules_systemtest.PluginClient.Connect.{try_connect, connect_with_retry}
use rules_systemtest.PluginClient.Connects.{
  IsClock, Connects, connected, poll_failed, exited, expired, retried, connect_with_retry-Connects,
}

-- An attempt to connect and a poll take at most `lag` milliseconds, and a sleep that much more than
-- its length.
pub record IsPrompt (os : Os) (lag : ℕ) : Type 0 where
  pub sleeps : (d : ℕ) (w : os.World) → os.now (os.sleep d w) ≤ os.now w + d + lag
  pub connects :
      (e : os.Endpoint) (path : String) (w : os.World)
      → os.now (os.connect_with_connector e path w).1 ≤ os.now w + lag
  pub polls : (child : os.Child) (w : os.World) → os.now (os.try_wait child w).1 ≤ os.now w + lag

module _ (os : Os) (lag : ℕ) (prompt : IsPrompt os lag) (child : os.Child) (path : String) where
  open os use {World, Channel, ExitStatus}

  try_connect-prompt : (w : World) → os.now (try_connect os path w).1 ≤ os.now w + lag
  unfolding try_connect
  try_connect-prompt w = from_endpoint (os.endpoint "http://[::]:50051")
    where
      from_endpoint :
          (r : Result Error os.Endpoint)
          → os.now (continue r (λ e. os.connect_with_connector e path) w).1 ≤ os.now w + lag
      from_endpoint (ok e) = prompt.connects e path w
      from_endpoint (err e) = omega arith

  attempt-prompt :
      {r : Result Error Channel} (w w' : World)
      → try_connect os path w ≡ (r, w')
      → os.now w' ≤ os.now w + lag
  attempt-prompt w w' h =
      let same = ap (λ (x : Result Error Channel × World). os.now x.1) h in
      omega (arith, same, try_connect-prompt w)

  poll-prompt :
      {r : Result Error (Option ExitStatus)} (w w' : World)
      → os.try_wait child w ≡ (r, w')
      → os.now w' ≤ os.now w + lag
  poll-prompt w w' h =
      let same = ap (λ (x : Result Error (Option ExitStatus) × World). os.now x.1) h in
      omega (arith, same, prompt.polls child w)

  -- A round that sleeps starts before the deadline, so that only the last one can pass it.
  Connects-InTime :
      (deadline : ℕ) {w w' : World} {r : Result Error Channel}
      → Connects os child path deadline w r w'
      → os.now w ≤ deadline + 50 + lag
      → os.now w' ≤ deadline + 50 + 3 * lag
  Connects-InTime deadline (connected h) early = omega (arith, attempt-prompt _ _ h)
  Connects-InTime deadline (poll_failed h k) early =
      omega (arith, attempt-prompt _ _ h, poll-prompt _ _ k)
  Connects-InTime deadline (exited h k) early =
      omega (arith, attempt-prompt _ _ h, poll-prompt _ _ k)
  Connects-InTime deadline (expired h k late) early =
      omega (arith, attempt-prompt _ _ h, poll-prompt _ _ k)
  Connects-InTime deadline (retried {w₂ = w₂} h k soon rest) early =
      Connects-InTime deadline rest (omega (arith, prompt.sleeps 50 w₂))

  -- Where connecting and polling take at most a lag each and do not turn the clock back, and a
  -- sleep takes its length and at most the lag more, the retry loop returns within the timeout, 50
  -- ms and three times the lag.
  pub connect_with_retry-InTime :
      (clock : IsClock os) (timeout : ℕ) (w : World)
      → os.now (connect_with_retry os child path timeout w).1 ≤ os.now w + timeout + 50 + 3 * lag
  connect_with_retry-InTime clock timeout w =
      Connects-InTime (os.now w + timeout)
        (connect_with_retry-Connects os clock child path timeout w) (omega arith)
