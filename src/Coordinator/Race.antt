-- ===== src/Coordinator/Race.antt =====
-- Two calls of `take_lease` in src/coordinator/src/coordinator.rs that wait for one fixture at once,
-- and both provision it.
use rules_systemtest.Prelude.{◌≡◌, ◌≢◌, refl, sym, ap, ◌∙◌, some, [], arith, if_ne}
use rules_systemtest.Result.{ok}
use rules_systemtest.Map
use rules_systemtest.Os.{Os}
use rules_systemtest.Proto.{FixtureResult, lease_status_number, succeeded}
use rules_systemtest.Fixture.{FixtureFingerprint, FixtureRecord, fingerprint_eq}
use rules_systemtest.Lease
use rules_systemtest.Lease.{LeaseId, LeaseRecord, lease_id_eq}
use rules_systemtest.Coordinator.Memory.{State}
use rules_systemtest.Coordinator.Slots.{register, granted}
use rules_systemtest.Coordinator.TakeLease.{Process, Pending, Draws, finish}
use rules_systemtest.Coordinator.Leases.{status, keepalive}
use rules_systemtest.Coordinator.Updates.{leases-add_lease}
use rules_systemtest.Coordinator.Cases.{new_record}
use rules_systemtest.Coordinator.Replaced.{
  after, finish-add_lease, finish-kill, fixtures-finish, leases-finish,
}

module _ {P : Type 0} (s : State P) (id : LeaseId) (l : LeaseRecord) (r : FixtureRecord P)
    (known : Map.get s.leases id ≡ some l)
    (stored : Map.get s.fixtures l.fingerprint ≡ some r) where
  status-stored :
      status (record { lease_id = Lease.into_string id }) s
      ≡ ok (record { status = lease_status_number succeeded; outputs = r.outputs; messages = [] })
  unfolding status Lease.from Lease.into_string
  status-stored = ground (arith, known, stored)

  keepalive-stored : keepalive (record { lease_id = Lease.into_string id }) s ≡ ok (record {})
  unfolding keepalive Lease.from Lease.into_string
  keepalive-stored = ground (arith, known)

module _ (os : Os) (p q : Pending) (first second : Draws) (a b : Process os)
    (result later : FixtureResult) (s : State (Process os)) (u w : os.World)
    (same : p.fingerprint ≡ q.fingerprint)
    (distinct : Lease.random second.lease ≢ Lease.random first.lease) where
  -- The states after the first and after the second of the calls.
  abbrev once : State (Process os)
  once = after os s p first a result u

  abbrev twice : State (Process os)
  twice = after os once q second b later w

  first-known :
      Map.get twice.leases (Lease.random first.lease)
      ≡ some (record { fingerprint = p.fingerprint })
  first-known =
      ap (λ (t : State (Process os)). Map.get t.leases (Lease.random first.lease))
        (finish-add_lease os once q second b later w)
      ∙ leases-add_lease once q.fingerprint (new_record q.desc q.client_id b later)
          (Lease.random second.lease) (Lease.random first.lease)
      ∙ if_ne (Lease.random second.lease) (Lease.random first.lease) _ _ distinct
      ∙ leases-finish os s p first a result u

  replaced : Map.get once.fixtures q.fingerprint ≡ some (new_record p.desc p.client_id a result)
  replaced =
      ap (λ (k : FixtureFingerprint). Map.get once.fixtures k) (sym same)
      ∙ fixtures-finish os s p first a result u

  stored : Map.get twice.fixtures p.fingerprint ≡ some (new_record q.desc q.client_id b later)
  stored =
      ap (λ (k : FixtureFingerprint). Map.get twice.fixtures k) same
      ∙ fixtures-finish os once q second b later w

  -- Where two calls that provision fixtures with one fingerprint, under different lease ids,
  -- finish with results one after the other: the first is granted a lease with its result's
  -- outputs, the second then kills the first's plugin, and after it the first lease is known to
  -- keepalive and its status answers with the outputs of the second's result.
  pub race :
      ((finish os p first (ok (a, result)) s u).0
        ≡ ok (granted (Lease.random first.lease) result.outputs []))
      × ((finish os q second (ok (b, later)) once w).2 ≡ os.start_kill a.child w)
      × (status (record { lease_id = Lease.into_string (Lease.random first.lease) }) twice
          ≡ ok (record {
            status = lease_status_number succeeded;
            outputs = later.outputs;
            messages = [];
          }))
      × (keepalive (record { lease_id = Lease.into_string (Lease.random first.lease) }) twice
          ≡ ok (record {}))
  unfolding finish register
  race = (
    refl,
    finish-kill os once q second b later w (new_record p.desc p.client_id a result) replaced,
    status-stored twice (Lease.random first.lease) _ (new_record q.desc q.client_id b later)
        first-known stored,
    keepalive-stored twice (Lease.random first.lease) _ (new_record q.desc q.client_id b later)
        first-known stored,
  )
