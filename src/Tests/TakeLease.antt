-- ===== src/Tests/TakeLease.antt =====
-- `take_lease` at a coordinator that has no fixture yet.

use rules_systemtest.Prelude.{◌≡◌, refl, ap, ◌∙◌, ◌⊎◌, Option, none, some, [], ◌∷◌}
use rules_systemtest.Prelude.Int.{pos}
use rules_systemtest.Result.{Result, ok, err, Status, internal_error, unimplemented}
use rules_systemtest.Map
use rules_systemtest.Proto.{
  binary_path, container_ref, TakeLeaseRequest, TakeLeaseResponse, create_progress_status_try_from,
  lease_status_number,
}
use rules_systemtest.Lease
use rules_systemtest.Lease.{LeaseId, LeaseRecord, lease_id_eq}
use rules_systemtest.Fixture.{FixtureRecord, fingerprint_eq, compute, hex_encode}
use rules_systemtest.PluginClient.{
  spawn, create_fixture, describe, connect_loop, connect_round, drain, progress_status,
}
use rules_systemtest.Coordinator.{
  State, Process, default, keepalive, status, take_lease, begin, validate, provision, granted,
  finish, register, plugin_socket_path, startup_timeout, provisioning, Begun, reply_or_wait,
  continue_begun, drop_replaced,
}
use rules_systemtest.Coordinator.Reuse.{attach-missing}
use rules_systemtest.Coordinator.Replies.{take_lease-status, take_lease-err}
use rules_systemtest.Coordinator.Failures.{Fails, take_lease-Fails}
use rules_systemtest.Coordinator.Refusals.{remote_plugin, take_lease-Refuses, take_lease_unreadable}
use rules_systemtest.Tests.Machine.{Box, box_codec, low_bytes, encode_redis}
use rules_systemtest.Tests.Scenes.{
  os, start, result, request, draws, fp, pending, plugin, description,
}

abbrev pub connected : Box
connected = record { time = 150; killed = [] }

pub provision_runs :
    provision os "/run" pending (draws "l-1") start ≡ (ok (plugin 7, result), connected)
unfolding provision spawn create_fixture describe connect_loop connect_round drain progress_status
    create_progress_status_try_from plugin_socket_path startup_timeout
provision_runs = refl

abbrev pub local : TakeLeaseRequest
local = request (some (binary_path "plugin"))

abbrev pub registered : State (Process os)
registered =
    (register default fp (description "cache" (some (binary_path "plugin"))) "alice" (plugin 7)
      result (Lease.random "l-1")).0

pub nothing_there : Map.get (default {P = Process os}).fixtures fp ≡ none
unfolding default
nothing_there = Map.get-empty {V = FixtureRecord (Process os)} fp

pub begin_waits :
    begin os box_codec local (draws "l-1") default start ≡ (provisioning pending, default, start)
unfolding begin validate compute hex_encode low_bytes encode_redis
begin_waits =
    ap {A = Option (State (Process os) × TakeLeaseResponse)}
      {B = Begun os × State (Process os) × Box}
      (λ o. let (b, s) = reply_or_wait os o pending default in (b, s, start))
      (attach-missing default fp "alice" (Lease.random "l-1") nothing_there)

pub take_lease_runs :
    take_lease os box_codec "/run" (draws "l-1") (λ s. s) local default start
    ≡ (ok (granted (Lease.random "l-1") [] []), registered, connected)
unfolding take_lease finish register provision spawn create_fixture describe connect_loop
    connect_round drain progress_status create_progress_status_try_from plugin_socket_path
    startup_timeout
take_lease_runs =
    ap {A = Begun os × State (Process os) × Box} (continue_begun os "/run" (draws "l-1") (λ s. s))
      begin_waits
    ∙ ap {A = Option (FixtureRecord (Process os))}
        {B = Result Status TakeLeaseResponse × State (Process os) × Box}
        (λ o. (ok (granted (Lease.random "l-1") [] []), registered, drop_replaced os o connected))
        nothing_there

take_lease-status_example :
    (status (record { lease_id = "l-1" }) registered
      ≡ ok (record { status = pos 2; outputs = []; messages = [] }))
    × (keepalive (record { lease_id = "l-1" }) registered ≡ ok (record {}))
unfolding Lease.random Lease.into_string lease_status_number
take_lease-status_example =
    take_lease-status os box_codec "/run" (draws "l-1") (λ s. s) local default registered start
      connected (granted (Lease.random "l-1") [] []) take_lease_runs

remote : TakeLeaseRequest
remote = request (some (container_ref "registry.example.com/plugin@sha256:00"))

unsupported : Status
unsupported =
    unimplemented
      "remote-mode (container_ref) plugins are not supported by this scaffold coordinator"

refuses :
    take_lease os box_codec "/run" (draws "l-1") (λ s. s) remote default start
    ≡ (err unsupported, default, start)
unfolding remote unsupported
refuses =
    take_lease-Refuses os box_codec "/run" (draws "l-1") (λ s. s) remote default start unsupported
      (remote_plugin
        (description "cache" (some (container_ref "registry.example.com/plugin@sha256:00")))
        "registry.example.com/plugin@sha256:00" refl refl)

take_lease-err_example :
    ◌⊎◌ (default {P = Process os} ≡ default) (default {P = Process os} ≡ default)
take_lease-err_example =
    take_lease-err os box_codec "/run" (draws "l-1") (λ s. s) remote default default start start
      unsupported refuses

missing_file : TakeLeaseRequest
missing_file = request (some (binary_path "gone"))

file_is_missing :
    take_lease os box_codec "/run" (draws "l-1") (λ s. s) missing_file default start ≡ (
      err (
          internal_error "computing fingerprint"
            ("reading plugin binary at gone" ∷ "no such file" ∷ [])),
      default,
      start,
    )
unfolding missing_file
file_is_missing =
    take_lease_unreadable os box_codec "/run" (draws "l-1") (λ s. s) missing_file default start
      (description "cache" (some (binary_path "gone"))) "gone" ("no such file" ∷ []) start refl refl
      refl

take_lease-Fails_example :
    Fails os box_codec "/run" (draws "l-1") missing_file start (
      internal_error "computing fingerprint"
        ("reading plugin binary at gone" ∷ "no such file" ∷ []))
take_lease-Fails_example =
    take_lease-Fails os box_codec "/run" (draws "l-1") missing_file start (λ s. s) default
      (internal_error "computing fingerprint"
        ("reading plugin binary at gone" ∷ "no such file" ∷ []))
      default start file_is_missing
