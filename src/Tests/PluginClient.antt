-- ===== src/Tests/PluginClient.antt =====
-- The calls to a plugin, at a plugin that serves after 120 ms.
use rules_systemtest.Prelude.{◌≤◌, arith, ◌≡◌, refl, ◌↔◌, [], ◌∷◌}
use rules_systemtest.Result.{ok, err}
use rules_systemtest.PluginClient.{
  drain, connect_with_retry, connect_loop, connect_round, try_connect, after_attempt, after_poll,
  retry_or_time_out, spawn, create_parent,
}
use rules_systemtest.PluginClient.Connects.{Connects, connect_with_retry-Connects}
use rules_systemtest.PluginClient.Drains.{Drains, drain-eq_iff}
use rules_systemtest.PluginClient.InTime.{IsPrompt, connect_with_retry-InTime}
use rules_systemtest.PluginClient.Spawns.{Spawns, spawn-Spawns}
use rules_systemtest.Tests.Machine.{box_clock, box_os}
use rules_systemtest.Tests.Scenes.{os, stream, start, result}

connect_waits :
    connect_with_retry os 7 "plugin.sock" 1000 start ≡ (ok tt, record { time = 150; killed = [] })
unfolding connect_with_retry connect_loop connect_round try_connect after_attempt after_poll
    retry_or_time_out
connect_waits = refl

connect_with_retry-Connects_example :
    Connects os 7 "plugin.sock" 1000 start (ok tt) (record { time = 150; killed = [] })
unfolding connect_with_retry connect_loop connect_round
connect_with_retry-Connects_example =
    connect_with_retry-Connects os (box_clock 120 stream) 7 "plugin.sock" 1000 start

drain-eq_iff_example : (drain os stream ≡ ok result) ↔ Drains os stream (ok result)
drain-eq_iff_example = drain-eq_iff os stream (ok result)

-- A plugin that is up after 1000 ms, and a coordinator that waits 100 ms for it.
gives_up : connect_with_retry (box_os 1000 []) 7 "p.sock" 100 (record { time = 0; killed = [] }) ≡ (
  err ("timed out connecting to plugin socket" ∷ "connection refused" ∷ []),
  record { time = 100; killed = [] },
)
unfolding connect_with_retry connect_loop connect_round
gives_up = refl

abandons : spawn (box_os 1000 []) "plugin" "p.sock" 100 (record { time = 0; killed = [] }) ≡ (
  err ("timed out connecting to plugin socket" ∷ "connection refused" ∷ []),
  record { time = 100; killed = [] },
)
unfolding spawn create_parent connect_with_retry connect_loop connect_round
abandons = refl

spawn-Spawns_example :
    Spawns
      (box_os 1000 [])
      "plugin"
      "p.sock"
      100
      (record { time = 0; killed = [] })
      (spawn (box_os 1000 []) "plugin" "p.sock" 100 (record { time = 0; killed = [] }))
spawn-Spawns_example =
    spawn-Spawns (box_os 1000 []) "plugin" "p.sock" 100 (box_clock 1000 [])
      (record { time = 0; killed = [] })

box-IsPrompt : IsPrompt (box_os 1000 []) 0
box-IsPrompt = record {
  sleeps = λ d w. omega arith;
  connects = λ e path w. omega arith;
  polls = λ child w. omega arith;
}

connect_with_retry-InTime_example :
    (connect_with_retry (box_os 1000 []) 7 "p.sock" 100 (record { time = 0; killed = [] })).1.time
    ≤ 150
connect_with_retry-InTime_example =
    connect_with_retry-InTime (box_os 1000 []) 0 box-IsPrompt 7 "p.sock" (box_clock 1000 []) 100
      (record { time = 0; killed = [] })
