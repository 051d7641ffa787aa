-- ===== src/Tests/Grants.antt =====
-- Calls of `take_lease` that are granted.
use rules_systemtest.Prelude.{◌≡◌, refl, ap, some, inr, arith, [], ◌∷◌}
use rules_systemtest.Result.{ok}
use rules_systemtest.Map
use rules_systemtest.Proto.{FixtureDescription, binary_path, create_progress_status_try_from}
use rules_systemtest.Lease
use rules_systemtest.Fixture.{FixtureRecord, fingerprint_eq, compute, hex_encode}
use rules_systemtest.PluginClient.{spawn, connect_loop, connect_round, drain, progress_status}
use rules_systemtest.PluginClient.Drains.{Drains, drain-eq_iff}
use rules_systemtest.Coordinator.{
  State, Process, default, take_lease, granted, plugin_socket_path, startup_timeout, drop_replaced,
}
use rules_systemtest.Coordinator.Reuse.{IsReusable}
use rules_systemtest.Coordinator.Cases.{new_record}
use rules_systemtest.Coordinator.Grants.{Provides, pending_of}
use rules_systemtest.Coordinator.Effects.{reply_of, Allows, TakesSlot, Registers}
use rules_systemtest.Coordinator.Granted.{Drops, take_lease-TakesSlot, take_lease-Registers}
use rules_systemtest.Tests.Coordinator.{one, one_fixture, one-IsValid}
use rules_systemtest.Coordinator.Sharing.{Repeats, take_twice, take_twice-Repeats}
use rules_systemtest.Tests.Machine.{Box, box_codec, low_bytes, encode_redis}
use rules_systemtest.Tests.Scenes.{os, start, result, stream, draws, fp, plugin, description}
use rules_systemtest.Tests.TakeLease.{connected, local}

abbrev desc : FixtureDescription
desc = description "cache" (some (binary_path "plugin"))

take_lease-TakesSlot_example :
    (t : State (Process os)) × (take_lease os box_codec "/run"
        (draws "l-2")
        (λ s. s)
        local
        one
        connected
      ≡ (
        ok (reply_of (Lease.random "l-2") [] ("connecting to existing fixture" ∷ [])),
        t,
        connected,
      ))
    × TakesSlot one t fp (Lease.random "l-2") (new_record desc "alice" (plugin 7) result)
unfolding compute hex_encode low_bytes encode_redis
take_lease-TakesSlot_example =
    take_lease-TakesSlot os box_codec "/run" (draws "l-2") (λ s. s) local one connected desc
      "plugin" fp connected refl refl refl (new_record desc "alice" (plugin 7) result) one-IsValid
      one_fixture (record { admitted = tt; room = inr (omega arith) })

stream-Drains : Drains os stream (ok result)
unfolding drain progress_status create_progress_status_try_from
stream-Drains = (drain-eq_iff os stream (ok result)).0 refl

provides :
    Provides os "/run"
      (pending_of local desc "plugin" fp)
      (draws "l-1")
      (plugin 7)
      (record { responses = [] })
      stream
      result
      start
      connected
      connected
      connected
unfolding spawn connect_loop connect_round plugin_socket_path startup_timeout
provides = record { starts = refl; describes = refl; streams = refl; drains = stream-Drains }

none-IsReusable :
    (r : FixtureRecord (Process os))
    → Map.get (default {P = Process os}).fixtures fp ≡ some r
    → ¬ IsReusable r "alice"
unfolding default
none-IsReusable r e _ = cc (e, Map.get-empty {V = FixtureRecord (Process os)} fp)

nothing_dropped :
    drop_replaced os (Map.get (default {P = Process os}).fixtures fp) connected ≡ connected
unfolding default
nothing_dropped =
    ap (λ o. drop_replaced os o connected) (Map.get-empty {V = FixtureRecord (Process os)} fp)

none-Allows :
    (r : FixtureRecord (Process os))
    → Map.get (default {P = Process os}).fixtures fp ≡ some r
    → ¬ Allows r "alice"
unfolding default
none-Allows r e _ = cc (e, Map.get-empty {V = FixtureRecord (Process os)} fp)

take_lease-Registers_example :
    (t : State (Process os)) × (w' : Box) × (take_lease os box_codec "/run"
        (draws "l-1")
        (λ s. s)
        local
        default
        start
      ≡ (ok (reply_of (Lease.random "l-1") [] []), t, w'))
    × Registers default t fp (Lease.random "l-1") desc "alice" (plugin 7) result
    × Drops os (Map.get (default {P = Process os}).fixtures fp) connected w'
unfolding compute hex_encode low_bytes encode_redis
take_lease-Registers_example =
    take_lease-Registers os box_codec "/run" (draws "l-1") (λ s. s) local default start desc
      "plugin" fp start refl refl refl (plugin 7) (record { responses = [] }) stream result
      connected connected connected none-Allows provides

computed_again :
    compute os box_codec desc "plugin"
      (drop_replaced os (Map.get (default {P = Process os}).fixtures fp) connected)
    ≡ (ok fp, connected)
unfolding compute hex_encode low_bytes encode_redis
computed_again = ap (λ (w : Box). (ok fp, w)) nothing_dropped

repeats :
    Repeats os box_codec "/run"
      (draws "l-1")
      (draws "l-2")
      (λ s. s)
      (λ s. s)
      local
      local
      default
      start
      desc
      "plugin"
      fp
      start
      connected
      connected
unfolding compute hex_encode low_bytes encode_redis
repeats = record {
  described = refl;
  described_again = refl;
  named = refl;
  computed = refl;
  computed_again = computed_again;
}

take_twice-Repeats_example :
    take_twice os box_codec "/run"
      (draws "l-1")
      (draws "l-2")
      (λ s. s)
      (λ s. s)
      local
      local
      default
      start
    ≡ (
      ok (granted (Lease.random "l-1") [] []),
      ok (granted (Lease.random "l-2") [] ("connecting to existing fixture" ∷ [])),
      connected,
    )
take_twice-Repeats_example =
    take_twice-Repeats os box_codec "/run" (draws "l-1") (draws "l-2") (λ s. s) (λ s. s) local local
      default start desc "plugin" fp (plugin 7) (record { responses = [] }) stream result start
      connected connected connected connected repeats none-IsReusable provides tt (omega arith)
