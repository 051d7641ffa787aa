-- ===== src/Coordinator/Cases.antt =====
-- The state that each locked block leaves: a rule for each to prove a predicate of it.
use rules_systemtest.Prelude.{String, ◌≡◌, refl, ap, Option, none, some}
use rules_systemtest.Prelude.Int.{pos, add_i64}
use rules_systemtest.Result.{Result, Status, ok, err}
use rules_systemtest.Map
use rules_systemtest.Os.{Os}
use rules_systemtest.Proto.{
  FixtureDescription, TakeLeaseRequest, TakeLeaseResponse, ReleaseRequest, FixtureResult,
}
use rules_systemtest.Fixture.{FixtureFingerprint, FixtureRecord, Codec, fingerprint_eq}
use rules_systemtest.Lease
use rules_systemtest.Lease.{LeaseId, LeaseRecord, lease_id_eq}
use rules_systemtest.Coordinator.Memory.{State}
use rules_systemtest.Coordinator.Slots.{register, or_default, validate}
use rules_systemtest.Coordinator.TakeLease.{
  Draws, Pending, Process, begin, begin_with, begin_valid, reply_or_wait, fingerprint_of, finish,
}
use rules_systemtest.Coordinator.Leases.{free_slot, release_found, release_lease, free_in}
use rules_systemtest.Coordinator.Updates.{add_lease, drop_lease}
use rules_systemtest.Coordinator.Reuse.{IsReusable, Attaches, attached, attach-Attaches}

-- The record with one slot more in use.
abbrev pub take_slot : {P : Type 0} → FixtureRecord P → FixtureRecord P
take_slot r = record r { used_slots = add_i64 r.used_slots (pos 1) }

-- The record of a fixture that has just been provisioned.
abbrev pub new_record :
    {P : Type 0} → FixtureDescription → String → P → FixtureResult → FixtureRecord P
new_record desc client_id plugin result = record {
  outputs = result.outputs;
  sharing = or_default desc.sharing;
  creating_client_id = client_id;
  used_slots = pos 1;
  plugin = plugin;
}

module _ (os : Os) (codec : Codec) (Q : State (Process os) → Type 0) (s : State (Process os)) where
  module _ (req : TakeLeaseRequest) (draws : Draws) where
    -- What an attached lease makes of the state.
    abbrev pub Attached : Type 0
    Attached =
        (fp : FixtureFingerprint) (r : FixtureRecord (Process os))
        → Map.get s.fixtures fp ≡ some r
        → IsReusable r req.client_id
        → Q (add_lease s fp (take_slot r) (Lease.random draws.lease))

    reply_or_wait_rule :
        (fp : FixtureFingerprint) (p : Pending)
        (o : Option (State (Process os) × TakeLeaseResponse))
        → Q s
        → Attached
        → Attaches s fp req.client_id (Lease.random draws.lease) o
        → Q (reply_or_wait os o p s).1
    unfolding add_lease
    reply_or_wait_rule fp p none q a _ = q
    reply_or_wait_rule fp p (some _) q a (attached r found reusable) = a fp r found reusable

    begin_with_rule :
        (valid : FixtureDescription × String) (fp : Result Status FixtureFingerprint)
        → Q s
        → Attached
        → Q (begin_with os req valid draws s fp).1
    begin_with_rule (desc, path) (err e) q a = q
    begin_with_rule (desc, path) (ok fp) q a =
        reply_or_wait_rule fp _ _ q a
          (attach-Attaches s fp req.client_id (Lease.random draws.lease))

    begin_valid_rule :
        (w : os.World) (valid : Result Status (FixtureDescription × String))
        → Q s
        → Attached
        → Q (begin_valid os codec req draws s w valid).1
    begin_valid_rule w (err e) q a = q
    begin_valid_rule w (ok (desc, path)) q a =
        begin_with_rule (desc, path) (fingerprint_of os codec (desc, path) w).0 q a

    -- `begin` leaves the state as it was, or attaches a lease to a fixture of the state.
    pub begin_rule : (w : os.World) → Q s → Attached → Q (begin os codec req draws s w).1
    unfolding begin
    begin_rule w q a = begin_valid_rule w (validate req) q a

  -- `finish` leaves the state as it was, or stores a new fixture with a lease on it.
  pub finish_rule :
      (p : Pending) (draws : Draws) (outcome : Result Status (Process os × FixtureResult))
      (w : os.World)
      → Q s
      → ((plugin : Process os) (result : FixtureResult)
          → Q (
              add_lease s p.fingerprint
                (new_record p.desc p.client_id plugin result)
                (Lease.random draws.lease)))
      → Q (finish os p draws outcome s w).1
  unfolding finish register add_lease
  finish_rule p draws (err e) w q a = q
  finish_rule p draws (ok (plugin, result)) w q a = a plugin result

-- The state without a lease, whose fixture is known.
pub release_found_lem :
    {P : Type 0} (s : State P) (id : LeaseId) (l : LeaseRecord) (r : FixtureRecord P)
    → Map.get s.fixtures l.fingerprint ≡ some r
    → release_found s id (some l) ≡ drop_lease s l.fingerprint (free_slot r) id
unfolding drop_lease
release_found_lem s id l r e =
    ap (free_in (record s { leases = Map.remove s.leases id }) l.fingerprint) e

module _ {P : Type 0} (Q : State P → Type 0) (s : State P) where
  release_found_rule :
      (id : LeaseId) (o : Option LeaseRecord)
      → Map.get s.leases id ≡ o
      → (Map.get s.leases id ≡ none → Q s)
      → ((l : LeaseRecord) → Map.get s.leases id ≡ some l → Q (release_found s id (some l)))
      → Q (release_found s id o)
  release_found_rule id none e q a = q e
  release_found_rule id (some l) e q a = a l e

  -- `release_lease` leaves the state as it was, or drops a known lease.
  pub release_rule :
      (req : ReleaseRequest)
      → (Map.get s.leases (Lease.from req.lease_id) ≡ none → Q s)
      → ((l : LeaseRecord)
          → Map.get s.leases (Lease.from req.lease_id) ≡ some l
          → Q (release_found s (Lease.from req.lease_id) (some l)))
      → Q (release_lease req s).1
  unfolding release_lease
  release_rule req q a =
      let id = Lease.from req.lease_id in release_found_rule id (Map.get s.leases id) refl q a
