-- ===== src/Tests/Calls.antt =====
-- A history of calls: one waits for its plugin and finishes.
use rules_systemtest.Prelude.{◌≢◌, some, string_eq, ◌≡◌, refl, ap, ◌∙◌, [], ◌∷◌, arith}
use rules_systemtest.Prelude.Int.{pos}
use rules_systemtest.Result.{Result, Status, ok}
use rules_systemtest.Proto.{int_value, FixtureResult, lease_status_number, succeeded}
use rules_systemtest.Coordinator.Race.{race}
use rules_systemtest.Coordinator.Replaced.{after}
use rules_systemtest.Map
use rules_systemtest.Lease
use rules_systemtest.Lease.{LeaseId, lease_id_eq}
use rules_systemtest.Fixture.{fingerprint_eq, compute, hex_encode}
use rules_systemtest.Coordinator.{
  State, Process, default, begin, finish, provision, Begun, granted, status, keepalive, take_lease,
  attach_lease, plugin_socket_path, startup_timeout,
}
use rules_systemtest.Coordinator.Processes.{IsKept, take_lease-IsKept}
use rules_systemtest.PluginClient.{spawn, connect_loop, connect_round}
use rules_systemtest.Coordinator.Grants.{take_lease-attaches}
use rules_systemtest.Coordinator.Stored.{Stored}
use rules_systemtest.Coordinator.Calls.{
  Service, idle, queue, after_begin, after_finish, calls, finishes, Serves, starts, then,
}
use rules_systemtest.Coordinator.Calls.Provenance.{IsProvisioned, Serves-IsProvisioned}
use rules_systemtest.Coordinator.Calls.Identity.{IsServed, take_lease-IsServed}
use rules_systemtest.Coordinator.Calls.Clients.{ReplacesNone, IsFair, Serves-IsFair}
use rules_systemtest.Tests.Machine.{Box, box_codec, low_bytes, encode_redis}
use rules_systemtest.Tests.Scenes.{os, result, start, draws, fp, pending, plugin}
use rules_systemtest.Tests.TakeLease.{local, connected, begin_waits, nothing_there, provision_runs}
use rules_systemtest.Tests.Coordinator.{IsFresh-at_first, one_record, one_fixture}

-- The first part of a call has been served.
abbrev called : Service os
called =
    let (begun, t, _) = begin os box_codec local (draws "l-1") default start in
    after_begin os local (draws "l-1") begun t (idle os)

-- The call has finished.
abbrev finished : Service os
finished =
    let (reply, t, _) =
      finish os pending (draws "l-1") (provision os "/run" pending (draws "l-1") start).0
        called.state start in
    after_finish os pending (draws "l-1") reply t [] called

state_called : called.state ≡ default
state_called = ap {A = Begun os × State (Process os) × Box} (λ b. b.1) begin_waits

waiting_called : called.waiting ≡ (pending, draws "l-1") ∷ []
waiting_called =
    ap {A = Begun os × State (Process os) × Box} (λ b. queue os b.0 (draws "l-1") []) begin_waits

call_served : Serves os box_codec "/run" called
call_served = then starts (calls local (draws "l-1") start (IsFresh-at_first "l-1") (omega arith))

call_finished : Serves os box_codec "/run" finished
call_finished = then call_served (
    finishes [] [] pending (draws "l-1") start start waiting_called (
      ap (λ (s : State (Process os)). Map.get s.leases (Lease.random "l-1")) state_called
      ∙ IsFresh-at_first "l-1"))

Serves-IsProvisioned_example : Stored (IsProvisioned os box_codec "/run") finished.state
Serves-IsProvisioned_example = Serves-IsProvisioned os box_codec "/run" call_finished

call_finished-ReplacesNone : ReplacesNone os box_codec "/run" call_finished
unfolding call_finished call_served
call_finished-ReplacesNone =
    (tt, ap (λ (s : State (Process os)). Map.get s.fixtures fp) state_called ∙ nothing_there)

Serves-IsFair_example : IsFair finished.state finished.clients
Serves-IsFair_example = Serves-IsFair os box_codec "/run" call_finished call_finished-ReplacesNone

take_lease-IsKept_example :
    IsKept os pending
      (plugin 7)
      default
      (take_lease os box_codec "/run" (draws "l-1") (λ s. s) local default start)
unfolding spawn connect_loop connect_round plugin_socket_path startup_timeout
take_lease-IsKept_example =
    take_lease-IsKept os box_codec "/run" (draws "l-1") (λ s. s) local default default pending
      (plugin 7) start start connected begin_waits refl

-- The result of a second plugin, which has an output.
abbrev later : FixtureResult
later = record result { outputs = ("port", record { value = some (int_value (pos 6379)) }) ∷ [] }

-- The states after two calls for one fixture.
abbrev one : State (Process os)
one = after os default pending (draws "l-1") (plugin 7) result start

abbrev two : State (Process os)
two = after os one pending (draws "l-2") (plugin 8) later start

finished_one : finished.state ≡ one
finished_one =
    ap
      (λ (s : State (Process os)).
        (finish os pending (draws "l-1") (provision os "/run" pending (draws "l-1") start).0 s
          start).1)
      state_called
    ∙ ap
        (λ (o : Result Status (Process os × FixtureResult) × Box).
          (finish os pending (draws "l-1") o.0 default start).1)
        provision_runs

-- A second client call shares the fixture that the history has left.
shares_finished :
    take_lease os box_codec "/run" (draws "l-2") (λ s. s) local finished.state connected ≡ (
      ok (granted (Lease.random "l-2") [] ("connecting to existing fixture" ∷ [])),
      (attach_lease one fp one_record (Lease.random "l-2")).0,
      connected,
    )
unfolding compute hex_encode low_bytes encode_redis
shares_finished =
    ap (λ s. take_lease os box_codec "/run" (draws "l-2") (λ s. s) local s connected) finished_one
    ∙ take_lease-attaches os box_codec "/run" (draws "l-2") (λ s. s) local one connected
        pending.desc "plugin" fp connected refl refl refl one_record one_fixture
        (record { admitted = tt; free = omega arith })

take_lease-IsServed_example :
    IsServed os box_codec "/run" local connected (draws "l-2") call_finished []
take_lease-IsServed_example =
    take_lease-IsServed os box_codec "/run" local connected (draws "l-2") call_finished (λ s. s)
      connected (attach_lease one fp one_record (Lease.random "l-2")).0
      (granted (Lease.random "l-2") [] ("connecting to existing fixture" ∷ [])) shares_finished

lease_ids_differ : Lease.random "l-2" ≢ Lease.random "l-1"
unfolding Lease.random
lease_ids_differ e = ground (arith, ap (λ (i : LeaseId). i.text) e, string_eq.beq_iff "l-2" "l-1")

race_example :
    ((finish os pending (draws "l-1") (ok (plugin 7, result)) default start).0
      ≡ ok (granted (Lease.random "l-1") [] []))
    × ((finish os pending (draws "l-2") (ok (plugin 8, later)) one start).2
        ≡ record { time = 0; killed = 7 ∷ [] })
    × (status (record { lease_id = Lease.into_string (Lease.random "l-1") }) two
        ≡ ok (record {
          status = lease_status_number succeeded;
          outputs = later.outputs;
          messages = [];
        }))
    × (keepalive (record { lease_id = Lease.into_string (Lease.random "l-1") }) two
        ≡ ok (record {}))
race_example =
    race os pending pending (draws "l-1") (draws "l-2") (plugin 7) (plugin 8) result later default
      start start refl lease_ids_differ
