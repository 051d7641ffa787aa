-- ===== src/Coordinator/Calls/Stores.antt =====
-- Predicates of stored fixtures along the parts of `take_lease` in
-- src/coordinator/src/coordinator.rs.
use rules_systemtest.Prelude.{◌≡◌, refl, sym, subst}
use rules_systemtest.Prelude.Int.{ℤ}
use rules_systemtest.Result.{Result, ok, err, Status}
use rules_systemtest.Os.{Os}
use rules_systemtest.Proto.{TakeLeaseRequest, FixtureResult}
use rules_systemtest.Fixture.{Codec, FixtureFingerprint, FixtureRecord}
use rules_systemtest.Lease
use rules_systemtest.Coordinator.Memory.{State}
use rules_systemtest.Coordinator.Slots.{register}
use rules_systemtest.Coordinator.TakeLease.{
  Draws, Pending, Process, Begun, replied, provisioning, finish,
}
use rules_systemtest.Coordinator.Updates.{add_lease}
use rules_systemtest.Coordinator.Cases.{take_slot, new_record}
use rules_systemtest.Coordinator.Stored.{Stored, add_lease-Stored}
use rules_systemtest.Coordinator.Calls.Begins.{Tells}

module _ (os : Os) where
  module _ (codec : Codec) (Q : FixtureFingerprint → FixtureRecord (Process os) → Type 0)
      (slots : (n : ℤ) (fp : FixtureFingerprint) (r : FixtureRecord (Process os))
        → Q fp r
        → Q fp (record r { used_slots = n })) where
    -- The first part of a call keeps what holds of a fixture whatever slots of it are in use.
    pub begun-Stored :
        (req : TakeLeaseRequest) (draws : Draws) (s t : State (Process os)) (w : os.World)
        (begun : Begun os)
        → Tells os codec req draws s w begun t
        → Stored Q s
        → Stored Q t
    begun-Stored req draws s t w (replied (err e)) same old = subst (Stored Q) (sym same) old
    begun-Stored req draws s t w (replied (ok response)) shares old =
        subst (Stored Q) (sym shares.state_lem) (
          add_lease-Stored Q s shares.call.fingerprint (take_slot shares.fixture)
            (Lease.random draws.lease)
            (slots _ shares.call.fingerprint shares.fixture
              (old shares.call.fingerprint shares.fixture shares.found))
            old)
    begun-Stored req draws s t w (provisioning p) (same, _) old = subst (Stored Q) (sym same) old

  -- The last part keeps what holds of the fixture that it registers.
  pub finish-Stored :
      (Q : FixtureFingerprint → FixtureRecord (Process os) → Type 0) (p : Pending) (draws : Draws)
      (s : State (Process os)) (u : os.World) (outcome : Result Status (Process os × FixtureResult))
      → ((plugin : Process os) (result : FixtureResult)
          → outcome ≡ ok (plugin, result)
          → Q p.fingerprint (new_record p.desc p.client_id plugin result))
      → Stored Q s
      → Stored Q (finish os p draws outcome s u).1
  unfolding finish register add_lease
  finish-Stored Q p draws s u (err e) new old = old
  finish-Stored Q p draws s u (ok (plugin, result)) new old =
      add_lease-Stored Q s p.fingerprint (new_record p.desc p.client_id plugin result)
        (Lease.random draws.lease) (new plugin result refl) old
