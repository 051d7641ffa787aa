-- ===== src/PluginClient/Connect.antt =====
-- `connect_with_retry` and `try_connect` of src/coordinator/src/plugin_client.rs. The loop runs on
-- fuel; `connect_fuel` rounds are enough where a sleep of 50 ms moves the clock on by 50 ms.
use Prim.Native.String.{◌++◌}
use rules_systemtest.Prelude.{
  ℕ, zero, suc, ◌+◌, ◌/◌, String, Option, none, some, ◌∷◌, [], leb, if◌then◌else◌,
}
use rules_systemtest.Result.{Result, ok, err, Error}
use rules_systemtest.Io.{Io, lift, ◌>>=◌}
use rules_systemtest.Os.{Os}

module _ (os : Os) where
  open os use {World, Child, Channel, ExitStatus}

  unfoldable pub try_connect : String → Io World Channel
  try_connect socket_path = do
    endpoint ← lift (os.endpoint "http://[::]:50051")
    os.connect_with_connector endpoint socket_path

  -- What a round of the loop ends with: `none` asks for another round.
  abbrev pub Round : Type 0
  Round = Option (Result Error Channel) × World

  abbrev pub exit_message : ExitStatus → String → String
  exit_message status socket_path =
      "plugin process exited ("
      ++ (os.display_status status ++ (") before serving " ++ os.debug_path socket_path))

  -- The child still runs: give up after the deadline, and sleep before it.
  unfoldable pub retry_or_time_out : ℕ → Error → World → Round
  retry_or_time_out deadline e w =
      if leb deadline (os.now w)
      then (some (err ("timed out connecting to plugin socket" ∷ e)), w)
      else (none, os.sleep 50 w)

  -- The `match` on the polled exit status.
  unfoldable pub after_poll : String → ℕ → Error → Result Error (Option ExitStatus) → World → Round
  unfolding retry_or_time_out
  after_poll socket_path deadline e (err p) w = (some (err ("polling plugin process" ∷ p)), w)
  after_poll socket_path deadline e (ok (some status)) w =
      (some (err (exit_message status socket_path ∷ e)), w)
  after_poll socket_path deadline e (ok none) w = retry_or_time_out deadline e w

  -- The `match` on the attempt to connect.
  unfoldable pub after_attempt : Child → String → ℕ → Result Error Channel → World → Round
  unfolding after_poll
  after_attempt child socket_path deadline (ok channel) w = (some (ok channel), w)
  after_attempt child socket_path deadline (err e) w =
      let (polled, w') = os.try_wait child w in after_poll socket_path deadline e polled w'

  unfoldable pub connect_round : Child → String → ℕ → World → Round
  unfolding after_attempt try_connect
  connect_round child socket_path deadline w =
      let (attempt, w') = try_connect socket_path w in
      after_attempt child socket_path deadline attempt w'

  abbrev pub next_round :
      (World → Option (Result Error Channel × World))
      → Option (Result Error Channel)
      → World
      → Option (Result Error Channel × World)
  next_round again (some r) w = some (r, w)
  next_round again none w = again w

  -- The loop; `none` means that the fuel ran out.
  unfoldable pub connect_loop :
      ℕ → Child → String → ℕ → World → Option (Result Error Channel × World)
  connect_loop zero child socket_path deadline w = none
  connect_loop (suc fuel) child socket_path deadline w =
      let (outcome, w') = connect_round child socket_path deadline w in
      next_round (connect_loop fuel child socket_path deadline) outcome w'

  -- Rounds of 50 ms until the timeout, the one under way at the deadline and the last.
  abbrev pub connect_fuel : ℕ → ℕ
  connect_fuel timeout = suc (suc (timeout / 50))

  abbrev pub or_stuck : World → Option (Result Error Channel × World) → Result Error Channel × World
  or_stuck w (some r) = r
  or_stuck w none = (err ("connect_with_retry did not return" ∷ []), w)

  unfoldable pub connect_with_retry : Child → String → ℕ → Io World Channel
  connect_with_retry child socket_path timeout w =
      or_stuck w (connect_loop (connect_fuel timeout) child socket_path (os.now w + timeout) w)
