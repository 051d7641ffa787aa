-- ===== src/Tests/Stable.antt =====
-- A lease that is held while another client's fixture comes and another lease goes.
use rules_systemtest.Prelude.{[], String, ◌≡◌, ap, arith, string_eq}
use rules_systemtest.Result.{ok}
use rules_systemtest.Fixture.{FixtureFingerprint}
use rules_systemtest.Lease
use rules_systemtest.Lease.{LeaseId}
use rules_systemtest.Coordinator.{State, Process, Pending, status, keepalive, finish, release_lease}
use rules_systemtest.Coordinator.Step.{finishes, releases, Reaches, here, next}
use rules_systemtest.Coordinator.Stable.{Reaches-status, backing}
use rules_systemtest.Coordinator.Ledger.{ledger, answer, Provisions, outputs_under, alive}
use rules_systemtest.Coordinator.Simulation.{Reaches-Simulates}
use rules_systemtest.Coordinator.Order.{SameTables, release-commutes}
use rules_systemtest.Coordinator.Preserved.{Reaches-stays-IsValid}
use rules_systemtest.Tests.Machine.{box_codec}
use rules_systemtest.Tests.Scenes.{os, start, result, draws, fp, pending, plugin}
use rules_systemtest.Tests.Coordinator.{one, one_lease, one-IsValid, IsFresh-second, first_step}

-- A call that waits for a fixture of another description.
abbrev elsewhere : Pending
elsewhere = record pending { fingerprint = record { text = "02" }; client_id = "bob" }

abbrev two : State (Process os)
two = (finish os elsewhere (draws "l-2") (ok (plugin 8, result)) one start).1

abbrev after : State (Process os)
after = (release_lease (record { lease_id = "l-2" }) two).1

abbrev history : Reaches os box_codec one after
history =
    next
      (next here (
        finishes elsewhere (draws "l-2") (ok (plugin 8, result)) start IsFresh-second
          (omega arith)))
      (releases (record { lease_id = "l-2" }))

Reaches-status_example :
    (status (record { lease_id = "l-1" }) after ≡ status (record { lease_id = "l-1" }) one)
    × (backing after fp ≡ backing one fp)
unfolding Lease.from
Reaches-status_example =
    Reaches-status os box_codec "l-1" (record { fingerprint = fp }) history one-IsValid one_lease
      ((tt, tt), λ e. ground (arith, ap (λ (i : LeaseId). i.text) e, string_eq.beq_iff "l-1" "l-2"))
      (
        (
          tt,
          λ e.
              ground
                (arith, ap (λ (f : FixtureFingerprint). f.text) e, string_eq.beq_iff "02" "01"),
        ),
        tt,
      )

-- The two leases of the history go in either order.
release-commutes_example :
    SameTables
      (release_lease
        (record { lease_id = "l-2" })
        (release_lease (record { lease_id = "l-1" }) two).1).1
      (release_lease
        (record { lease_id = "l-1" })
        (release_lease (record { lease_id = "l-2" }) two).1).1
release-commutes_example =
    release-commutes two (record { lease_id = "l-1" }) (record { lease_id = "l-2" })
      (Reaches-stays-IsValid os box_codec one-IsValid (
        next here (
          finishes elsewhere (draws "l-2") (ok (plugin 8, result)) start IsFresh-second
            (omega arith))))

-- Two fixtures are registered under one fingerprint, one after the other.
abbrev replaced : State (Process os)
replaced = (finish os pending (draws "l-2") (ok (plugin 8, result)) one start).1

Reaches-Simulates_example :
    Provisions (Lease.random "l-2") fp [] (ledger one) (ledger replaced)
    × ((lease_id : String)
        → (status (record { lease_id = lease_id }) replaced
            ≡ answer (
                outputs_under
                  (ledger replaced)
                  ((ledger replaced).fixture_of (Lease.from lease_id))))
          × (keepalive (record { lease_id = lease_id }) replaced
              ≡ alive ((ledger replaced).fixture_of (Lease.from lease_id))))
Reaches-Simulates_example =
    Reaches-Simulates os box_codec (next here first_step)
      (finishes pending (draws "l-2") (ok (plugin 8, result)) start IsFresh-second (omega arith))
