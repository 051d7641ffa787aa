-- ===== src/Coordinator/Bounds.antt =====
-- The i64 arithmetic on slots in src/coordinator/src/coordinator.rs.
use rules_systemtest.Prelude.{ℕ, String, ◌≡◌, true, some, arith}
use rules_systemtest.Prelude.Int.{pos, ◌≤ℤ◌, ◌<ℤ◌, ◌+ℤ◌, ◌-ℤ◌, i64_max, add_i64, sub_i64}
use rules_systemtest.Map
use rules_systemtest.Os.{Os}
use rules_systemtest.Fixture.{FixtureFingerprint, FixtureRecord, Codec, fingerprint_eq}
use rules_systemtest.Coordinator.Memory.{State, max_slots, default}
use rules_systemtest.Coordinator.TakeLease.{Process}
use rules_systemtest.Coordinator.Slots.{can_attach}
use rules_systemtest.Coordinator.Updates.{lease_count}
use rules_systemtest.Coordinator.Invariant.{HasSlots}
use rules_systemtest.Coordinator.Reuse.{can_attach_iff}
use rules_systemtest.Coordinator.Step.{Reaches}
use rules_systemtest.Coordinator.Preserved.{Reaches-IsValid}

module _ {P : Type 0} (n : ℕ) (r : FixtureRecord P) (h : HasSlots n r) where
  pub add_bounds :
      r.used_slots <ℤ max_slots r.sharing
      → (add_i64 r.used_slots (pos 1) ≡ r.used_slots +ℤ pos 1)
        × (r.used_slots +ℤ pos 1 ≤ℤ max_slots r.sharing)
        × (max_slots r.sharing ≤ℤ i64_max)
  add_bounds free = (ground arith, ground arith, ground arith)

  sub_bounds :
      (sub_i64 r.used_slots (pos 1) ≡ r.used_slots -ℤ pos 1)
      × (pos 0 ≤ℤ r.used_slots)
      × (r.used_slots ≤ℤ i64_max)
  sub_bounds = (ground arith, ground arith, ground arith)

module _ (os : Os) (codec : Codec) {s : State (Process os)} (fp : FixtureFingerprint)
    (r : FixtureRecord (Process os)) where
  -- In each reached state, where the reuse test admits a client to a fixture, the addition that
  -- takes the slot does not overflow, and its sum is within the slots of the policy, which fit in
  -- an i64.
  pub can_attach_bounds :
      (client_id : String)
      → Reaches os codec default s
      → Map.get s.fixtures fp ≡ some r
      → can_attach r client_id ≡ true
      → (add_i64 r.used_slots (pos 1) ≡ r.used_slots +ℤ pos 1)
        × (r.used_slots +ℤ pos 1 ≤ℤ max_slots r.sharing)
        × (max_slots r.sharing ≤ℤ i64_max)
  can_attach_bounds client_id reaches found taken =
      add_bounds (lease_count s fp) r ((Reaches-IsValid os codec reaches).slots fp r found)
        ((can_attach_iff r client_id).0 taken).free

  -- In each reached state the subtraction that frees a slot of a fixture does not overflow, and
  -- the slots in use are at least 0 and fit in an i64.
  pub free_slot_bounds :
      Reaches os codec default s
      → Map.get s.fixtures fp ≡ some r
      → (sub_i64 r.used_slots (pos 1) ≡ r.used_slots -ℤ pos 1)
        × (pos 0 ≤ℤ r.used_slots)
        × (r.used_slots ≤ℤ i64_max)
  free_slot_bounds reaches found =
      sub_bounds (lease_count s fp) r ((Reaches-IsValid os codec reaches).slots fp r found)
