-- ===== src/Tests/Coordinator.antt =====
-- The handlers at a coordinator with one plugin.

use rules_systemtest.Prelude.{
  ◌+◌, String, ◌≡◌, refl, true, ◌∙◌, ap, none, some, [], ◌∷◌, arith, string_eq, ◌==◌, if◌then◌else◌,
}
use rules_systemtest.Prelude.Int.{pos, ◌≤ℤ◌, ◌+ℤ◌, ◌-ℤ◌, i64_max, add_i64, sub_i64}
use rules_systemtest.Result.{ok, err, not_found}
use rules_systemtest.Map
use rules_systemtest.Proto.{binary_path}
use rules_systemtest.Lease
use rules_systemtest.Lease.{LeaseId, LeaseRecord, lease_id_eq}
use rules_systemtest.Fixture.{FixtureRecord, fingerprint_eq}
use rules_systemtest.Coordinator.{
  State, Process, default, keepalive, status, finish, release_lease, attach, attach_lease,
  free_slot, begin, can_attach, known,
}
use rules_systemtest.Coordinator.Cases.{new_record}
use rules_systemtest.Coordinator.Updates.{lease_count, leases-add_lease}
use rules_systemtest.Coordinator.Invariant.{IsValid}
use rules_systemtest.Coordinator.Step.{
  Step, begins, finishes, releases, Reaches, here, next, IsFresh,
}
use rules_systemtest.Coordinator.Preserved.{Reaches-IsValid}
use rules_systemtest.Coordinator.Accounting.{
  IsExact, Grows, start as nothing, grow, Grows-IsExact, Grows-within,
}
use rules_systemtest.Coordinator.Effects.{Reuses, attach-Reuses}
use rules_systemtest.Coordinator.Lasting.{Reaches-keepalive}
use rules_systemtest.Coordinator.Bounds.{can_attach_bounds, free_slot_bounds}
use rules_systemtest.Coordinator.Replaced.{
  finish_replaces, finish-add_lease, fixtures-finish, leases-finish,
}
use rules_systemtest.Coordinator.Release.{release-forgets, release-keeps, attach-release}
use rules_systemtest.Tests.Machine.{box_codec}
use rules_systemtest.Tests.Scenes.{os, start, result, request, draws, fp, pending, plugin, release}

-- The state after one call of `take_lease` has registered its fixture.
abbrev pub one : State (Process os)
one = (finish os pending (draws "l-1") (ok (plugin 7, result)) default start).1

abbrev pub one_record : FixtureRecord (Process os)
one_record = new_record pending.desc "alice" (plugin 7) result

pub one_fixture : Map.get one.fixtures fp ≡ some one_record
one_fixture = fixtures-finish os default pending (draws "l-1") (plugin 7) result start

pub one_lease : Map.get one.leases (Lease.from "l-1") ≡ some (record { fingerprint = fp })
unfolding Lease.from Lease.random
one_lease = leases-finish os default pending (draws "l-1") (plugin 7) result start

pub IsFresh-at_first : (lease : String) → IsFresh (default {P = Process os}) (draws lease)
unfolding default
IsFresh-at_first lease = Map.get-empty {V = LeaseRecord} (Lease.random lease)

pub IsFresh-second : IsFresh one (draws "l-2")
IsFresh-second =
    ap (λ (t : State (Process os)). Map.get t.leases (Lease.random "l-2"))
      (finish-add_lease os default pending (draws "l-1") (plugin 7) result start)
    ∙ leases-add_lease default fp one_record (Lease.random "l-1") (Lease.random "l-2")
    ∙ other_id
  where
    other_id :
        (if Lease.random "l-1" == Lease.random "l-2"
          then some (record { fingerprint = fp })
          else Map.get (default {P = Process os}).leases (Lease.random "l-2"))
        ≡ none
    other_id = unfold Lease.random in IsFresh-at_first "l-2"

pub first_step : Step os box_codec default one
first_step =
    finishes pending (draws "l-1") (ok (plugin 7, result)) start (IsFresh-at_first "l-1")
      (omega arith)

pub one-IsValid : IsValid one
one-IsValid = Reaches-IsValid os box_codec (next here first_step)

Reaches-IsValid_example : IsValid (release_lease release one).1
Reaches-IsValid_example =
    Reaches-IsValid os box_codec (next (next here first_step) (releases release))

grown : Grows os box_codec one
unfolding default first_step
grown = grow nothing first_step (Map.get-empty {V = FixtureRecord (Process os)} fp)

Grows-IsExact_example :
    IsExact (begin os box_codec (request (some (binary_path "plugin"))) (draws "l-2") one start).1
Grows-IsExact_example = Grows-IsExact os box_codec (
    grow grown (begins (request (some (binary_path "plugin"))) (draws "l-2") start IsFresh-second)
      tt)

Grows-within_example : pos (lease_count one fp) ≤ℤ pos 2
Grows-within_example = Grows-within os box_codec fp one_record grown one_fixture

attach-Reuses_example :
    Reuses one fp (Lease.random "l-2") "bob" (attach one fp "bob" (Lease.random "l-2"))
attach-Reuses_example = attach-Reuses one fp (Lease.random "l-2") "bob" one-IsValid

-- A second fixture comes while "l-1" is held, and the plugin with process 7 is killed.
finish_replaces_example :
    ((finish os pending (draws "l-2") (ok (plugin 8, result)) one start).2
      ≡ record { time = 0; killed = 7 ∷ [] })
    × (Map.get (finish os pending (draws "l-2") (ok (plugin 8, result)) one start).1.fixtures fp
        ≡ some (new_record pending.desc "alice" (plugin 8) result))
    × (lease_count (finish os pending (draws "l-2") (ok (plugin 8, result)) one start).1 fp
        ≡ lease_count one fp + 1)
    × (Map.get
          (finish os pending (draws "l-2") (ok (plugin 8, result)) one start).1.leases
          (Lease.random "l-2")
        ≡ some (record { fingerprint = fp }))
    × ((id : LeaseId) (l : LeaseRecord)
        → Map.get one.leases id ≡ some l
        → Map.get (finish os pending (draws "l-2") (ok (plugin 8, result)) one start).1.leases id
          ≡ some l)
finish_replaces_example =
    finish_replaces os one pending (draws "l-2") (plugin 8) result start one_record one_fixture
      IsFresh-second

release-forgets_example :
    (keepalive (record { lease_id = "l-1" }) (release_lease release one).1
      ≡ err (not_found "unknown lease_id"))
    × (status (record { lease_id = "l-1" }) (release_lease release one).1
        ≡ err (not_found "unknown lease_id"))
    × ((release_lease release (release_lease release one).1).1 ≡ (release_lease release one).1)
release-forgets_example = release-forgets one one-IsValid release

release-keeps_example :
    (keepalive (record { lease_id = "l-9" }) (release_lease release one).1
      ≡ keepalive (record { lease_id = "l-9" }) one)
    × (status (record { lease_id = "l-9" }) (release_lease release one).1
        ≡ status (record { lease_id = "l-9" }) one)
unfolding Lease.from
release-keeps_example =
    release-keeps one one-IsValid release "l-9"
      (λ e. ground (arith, ap (λ (i : LeaseId). i.text) e, string_eq.beq_iff "l-9" "l-1"))

attach-release_example :
    attach (release_lease release one).1 fp "bob" (Lease.random "l-2")
    ≡ some
        (attach_lease (release_lease release one).1 fp (free_slot one_record) (Lease.random "l-2"))
attach-release_example =
    attach-release one one-IsValid release (record { fingerprint = fp }) one_record "bob"
      (Lease.random "l-2") one_lease one_fixture tt

reached : Reaches os box_codec default one
reached = next here first_step

bob_admitted : can_attach one_record "bob" ≡ true
unfolding can_attach
bob_admitted = refl

can_attach_bounds_example :
    (add_i64 (pos 1) (pos 1) ≡ pos 1 +ℤ pos 1) × (pos 1 +ℤ pos 1 ≤ℤ pos 2) × (pos 2 ≤ℤ i64_max)
can_attach_bounds_example =
    can_attach_bounds os box_codec fp one_record "bob" reached one_fixture bob_admitted

free_slot_bounds_example :
    (sub_i64 (pos 1) (pos 1) ≡ pos 1 -ℤ pos 1) × (pos 0 ≤ℤ pos 1) × (pos 1 ≤ℤ i64_max)
free_slot_bounds_example = free_slot_bounds os box_codec fp one_record reached one_fixture

keepalive-one : keepalive (record { lease_id = "l-1" }) one ≡ ok (record {})
unfolding keepalive Lease.from Lease.random
keepalive-one = ap known one_lease

Reaches-keepalive_example :
    keepalive (record { lease_id = "l-1" }) (release_lease (record { lease_id = "l-9" }) one).1
    ≡ ok (record {})
unfolding Lease.from
Reaches-keepalive_example =
    Reaches-keepalive os box_codec "l-1" (next here (releases (record { lease_id = "l-9" })))
      one-IsValid
      (tt, λ e. ground (arith, ap (λ (i : LeaseId). i.text) e, string_eq.beq_iff "l-1" "l-9"))
      keepalive-one
