-- ===== src/Coordinator/Leases.antt =====
-- `keepalive`, `release_lease` and `status`. Each holds the lock from its first line to its last.
use rules_systemtest.Prelude.{Option, none, some, [], String}
use rules_systemtest.Prelude.Int.{pos, max_ℤ, sub_i64}
use rules_systemtest.Result.{Result, ok, err, Status, not_found, ◌>>=◌, ok_or_else}
use rules_systemtest.Map
use rules_systemtest.Proto.{
  BTreeMap, Value, KeepaliveRequest, KeepaliveResponse, ReleaseRequest, ReleaseResponse,
  StatusRequest, StatusResponse, lease_status_number, succeeded,
}
use rules_systemtest.Fixture.{FixtureRecord, fingerprint_eq, FixtureFingerprint}
use rules_systemtest.Lease.{LeaseId, LeaseRecord, lease_id_eq}
use rules_systemtest.Lease
use rules_systemtest.Coordinator.Memory.{State}

-- The `if !contains_key`.
abbrev pub known : Option LeaseRecord → Result Status KeepaliveResponse
known none = err (not_found "unknown lease_id")
known (some l) = ok (record {})

module _ {P : Type 0} where
  unfoldable pub keepalive : KeepaliveRequest → State P → Result Status KeepaliveResponse
  keepalive req s = known (Map.get s.leases (Lease.from req.lease_id))

  -- `record.used_slots = (record.used_slots - 1).max(0)`
  abbrev pub free_slot : FixtureRecord P → FixtureRecord P
  free_slot r = record r { used_slots = max_ℤ (sub_i64 r.used_slots (pos 1)) (pos 0) }

  abbrev pub free_in : State P → FixtureFingerprint → Option (FixtureRecord P) → State P
  free_in s fp none = s
  free_in s fp (some r) = record s { fixtures = Map.insert s.fixtures fp (free_slot r) }

  abbrev pub release_found : State P → LeaseId → Option LeaseRecord → State P
  release_found s id none = s
  release_found s id (some l) =
      free_in (record s { leases = Map.remove s.leases id }) l.fingerprint
        (Map.get s.fixtures l.fingerprint)

  unfoldable pub release_lease : ReleaseRequest → State P → Result Status ReleaseResponse × State P
  release_lease req s =
      let id = Lease.from req.lease_id in (ok (record {}), release_found s id (Map.get s.leases id))

  -- `.map(|r| r.outputs.clone()).unwrap_or_default()`
  abbrev pub outputs_or_default : Option (FixtureRecord P) → BTreeMap String Value
  outputs_or_default none = []
  outputs_or_default (some r) = r.outputs

  unfoldable pub status : StatusRequest → State P → Result Status StatusResponse
  status req s = do
    lease ← ok_or_else (Map.get s.leases (Lease.from req.lease_id)) (not_found "unknown lease_id")
    ok (record {
      status = lease_status_number succeeded;
      outputs = outputs_or_default (Map.get s.fixtures lease.fingerprint);
      messages = [];
    })
