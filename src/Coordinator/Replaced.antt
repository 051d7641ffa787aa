-- ===== src/Coordinator/Replaced.antt =====
-- The registration of a second fixture with a fingerprint in src/coordinator/src/coordinator.rs,
-- whose map holds one fixture for a fingerprint.
use rules_systemtest.Prelude.{◌+◌, ◌<◌, ◌≡◌, refl, some, arith, ap, ◌∙◌, if_self, if_ne}
use rules_systemtest.Result.{ok}
use rules_systemtest.Map
use rules_systemtest.Os.{Os}
use rules_systemtest.Proto.{FixtureResult}
use rules_systemtest.Fixture.{FixtureRecord, fingerprint_eq}
use rules_systemtest.Lease
use rules_systemtest.Lease.{LeaseId, LeaseRecord, lease_id_eq}
use rules_systemtest.PluginClient.{drop_plugin}
use rules_systemtest.Coordinator.Memory.{State}
use rules_systemtest.Coordinator.Slots.{register}
use rules_systemtest.Coordinator.TakeLease.{Process, Pending, Draws, finish, drop_replaced}
use rules_systemtest.Coordinator.Updates.{
  add_lease, lease_count, fixtures-add_lease, leases-add_lease, lease_count-add_self,
}
use rules_systemtest.Coordinator.Step.{IsFresh}
use rules_systemtest.Coordinator.Cases.{new_record}
use rules_systemtest.Coordinator.Accounting.{IsExact}

module _ (os : Os) (s : State (Process os)) (p : Pending) (draws : Draws) (plugin : Process os)
    (result : FixtureResult) (w : os.World) where
  abbrev pub after : State (Process os)
  after = (finish os p draws (ok (plugin, result)) s w).1

  pub finish-add_lease :
      after
      ≡ add_lease s p.fingerprint
          (new_record p.desc p.client_id plugin result)
          (Lease.random draws.lease)
  unfolding finish register add_lease
  finish-add_lease = refl

  pub finish-kill :
      (r : FixtureRecord (Process os))
      → Map.get s.fixtures p.fingerprint ≡ some r
      → (finish os p draws (ok (plugin, result)) s w).2 ≡ os.start_kill r.plugin.child w
  unfolding finish drop_plugin
  finish-kill r found = ap (λ o. drop_replaced os o w) found

  pub fixtures-finish :
      Map.get after.fixtures p.fingerprint ≡ some (new_record p.desc p.client_id plugin result)
  fixtures-finish =
      rw finish-add_lease
        (rw fixtures-add_lease (if_self p.fingerprint (some _) (Map.get s.fixtures p.fingerprint)))

  pub leases-finish :
      Map.get after.leases (Lease.random draws.lease)
      ≡ some (record { fingerprint = p.fingerprint })
  leases-finish = rw finish-add_lease (
      rw leases-add_lease
        (if_self (Lease.random draws.lease) (some _) (Map.get s.leases (Lease.random draws.lease))))

  lease_count-finish :
      IsFresh s draws → lease_count after p.fingerprint ≡ lease_count s p.fingerprint + 1
  lease_count-finish fresh = rw finish-add_lease (lease_count-add_self s p.fingerprint _ _ fresh)

  leases-stay :
      IsFresh s draws
      → (id : LeaseId) (l : LeaseRecord) → Map.get s.leases id ≡ some l
      → Map.get after.leases id ≡ some l
  leases-stay fresh id l held = rw finish-add_lease (
      leases-add_lease s p.fingerprint _ (Lease.random draws.lease) id
      ∙ if_ne (Lease.random draws.lease) id _ _
          (λ e. cc (fresh, held, ap (λ (i : LeaseId). Map.get s.leases i) e))
      ∙ held)

  -- Registering a fixture over one with the same fingerprint kills the plugin of the first, puts
  -- the new record with one slot in use in its place, puts the fresh lease on it, so that there is
  -- one lease more with the fingerprint, and leaves every lease that was in the table as it was.
  pub finish_replaces :
      (r : FixtureRecord (Process os))
      → Map.get s.fixtures p.fingerprint ≡ some r
      → IsFresh s draws
      → ((finish os p draws (ok (plugin, result)) s w).2 ≡ os.start_kill r.plugin.child w)
        × (Map.get (finish os p draws (ok (plugin, result)) s w).1.fixtures p.fingerprint
            ≡ some (new_record p.desc p.client_id plugin result))
        × (lease_count (finish os p draws (ok (plugin, result)) s w).1 p.fingerprint
            ≡ lease_count s p.fingerprint + 1)
        × (Map.get (finish os p draws (ok (plugin, result)) s w).1.leases (Lease.random draws.lease)
            ≡ some (record { fingerprint = p.fingerprint }))
        × ((id : LeaseId) (l : LeaseRecord)
            → Map.get s.leases id ≡ some l
            → Map.get (finish os p draws (ok (plugin, result)) s w).1.leases id ≡ some l)
  finish_replaces r found fresh = (
    finish-kill r found,
    fixtures-finish,
    lease_count-finish fresh,
    leases-finish,
    leases-stay fresh,
  )

  -- So with a lease on the first fixture the slots in use are no longer the leases held.
  pub finish-not-IsExact :
      IsFresh s draws
      → 0 < lease_count s p.fingerprint
      → ¬ IsExact (finish os p draws (ok (plugin, result)) s w).1
  finish-not-IsExact fresh held x =
      ground (arith, x p.fingerprint _ fixtures-finish, lease_count-finish fresh)
