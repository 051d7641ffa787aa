-- ===== src/Coordinator/Invariant.antt =====
-- The invariant of the coordinator's state: what its two maps say of one another, and the slots.
use mathlib.Core.Path.{subst, subst₂}
use rules_systemtest.Prelude.{ℕ, ◌+◌, ◌≤◌, ◌≡◌, ◌≢◌, inl, inr, none, some, arith, ◌==◌, Bool-cases}
use rules_systemtest.Prelude.Int.{pos, ◌≤ℤ◌, ◌<ℤ◌, i64_max, add_i64}
use rules_systemtest.Map
use rules_systemtest.Map.{IsMap}
use rules_systemtest.Fixture.{FixtureFingerprint, FixtureRecord, fingerprint_eq}
use rules_systemtest.Lease.{LeaseId, LeaseRecord, lease_id_eq}
use rules_systemtest.Coordinator.Memory.{State, max_slots, default}
use rules_systemtest.Coordinator.Leases.{free_slot}
use rules_systemtest.Coordinator.Updates.{
  add_lease, drop_lease, lease_count, fixtures-add_lease, fixtures-drop_lease, leases-add_lease,
  leases-drop_lease, lease_count-add_lease, lease_count-drop_lease,
}

-- The slots in use are at least none, at most those of the policy and at most the `n` leases.
pub record HasSlots {P : Type 0} (n : ℕ) (r : FixtureRecord P) : Type 0 where
  pub nonneg : pos 0 ≤ℤ r.used_slots
  pub within : r.used_slots ≤ℤ max_slots r.sharing
  pub leased : r.used_slots ≤ℤ pos n
  pub word : r.sharing.maximum_concurrent_connections ≤ℤ i64_max

module _ {P : Type 0} where
  pub record IsValid (s : State P) : Type 0 where
    pub fixtures_map : IsMap s.fixtures
    pub leases_map : IsMap s.leases
    pub routed :
        (id : LeaseId) (l : LeaseRecord)
        → Map.get s.leases id ≡ some l
        → Map.get s.fixtures l.fingerprint ≢ none
    pub slots :
        (fp : FixtureFingerprint) (r : FixtureRecord P)
        → Map.get s.fixtures fp ≡ some r
        → HasSlots (lease_count s fp) r

  pub take_slot-HasSlots :
      (n : ℕ) (r : FixtureRecord P)
      → HasSlots n r
      → r.used_slots <ℤ max_slots r.sharing
      → HasSlots (n + 1) (record r { used_slots = add_i64 r.used_slots (pos 1) })
  take_slot-HasSlots n r h free = ground arith

  pub free_slot-HasSlots :
      (n : ℕ) (r : FixtureRecord P) → HasSlots (n + 1) r → HasSlots n (free_slot r)
  free_slot-HasSlots n r h = ground arith

  HasSlots-mono : (m n : ℕ) (r : FixtureRecord P) → HasSlots m r → m ≤ n → HasSlots n r
  HasSlots-mono m n r h le = ground arith

  pub default-IsValid : IsValid (default {P = P})
  unfolding default
  default-IsValid = record {
    fixtures_map = Map.empty-IsMap;
    leases_map = Map.empty-IsMap;
    routed = λ id l e. cc (e, Map.get-empty {V = LeaseRecord} id);
    slots = λ fp r e. cc (e, Map.get-empty {V = FixtureRecord P} fp);
  }

  module _ (s : State P) (fp : FixtureFingerprint) (r : FixtureRecord P) (id : LeaseId) where
    add_lease-routed :
        (j : LeaseId) (l : LeaseRecord)
        → (Map.get s.leases j ≡ some l → Map.get s.fixtures l.fingerprint ≢ none)
        → Map.get (add_lease s fp r id).leases j ≡ some l
        → Map.get (add_lease s fp r id).fixtures l.fingerprint ≢ none
    add_lease-routed j l routed = ground (
      arith,
      leases-add_lease s fp r id j,
      fixtures-add_lease s fp r id l.fingerprint,
      fingerprint_eq.beq_iff fp l.fingerprint,
    )

    drop_lease-routed :
        (j : LeaseId) (l : LeaseRecord)
        → IsMap s.leases
        → (Map.get s.leases j ≡ some l → Map.get s.fixtures l.fingerprint ≢ none)
        → Map.get (drop_lease s fp r id).leases j ≡ some l
        → Map.get (drop_lease s fp r id).fixtures l.fingerprint ≢ none
    drop_lease-routed j l m routed =
        ground (arith, leases-drop_lease s fp r id j m, fixtures-drop_lease s fp r id l.fingerprint)

    add_lease-slots :
        (j : FixtureFingerprint) (r' : FixtureRecord P)
        → Map.get s.leases id ≡ none
        → HasSlots (lease_count s fp + 1) r
        → (Map.get s.fixtures j ≡ some r' → HasSlots (lease_count s j) r')
        → Map.get (add_lease s fp r id).fixtures j ≡ some r'
        → HasSlots (lease_count (add_lease s fp r id) j) r'
    add_lease-slots j r' fresh h old e = elim (Bool-cases (fp == j)) [
      | inl same ↦
          rw (lease_count-add_lease s fp r id j fresh, same)
            (subst₂ (λ k x. HasSlots (lease_count s k + 1) x) ((fingerprint_eq.beq_iff fp j).0 same)
              (ground (arith, fixtures-add_lease s fp r id j)) h)
      | inr other ↦
          rw (lease_count-add_lease s fp r id j fresh, other)
            (HasSlots-mono _ _ r' (old (ground (arith, fixtures-add_lease s fp r id j)))
              (omega arith))
    ]

    drop_lease-slots :
        (j : FixtureFingerprint) (r' : FixtureRecord P)
        → Map.get s.leases id ≡ some (record { fingerprint = fp })
        → HasSlots (lease_count (drop_lease s fp r id) fp) r
        → (Map.get s.fixtures j ≡ some r' → HasSlots (lease_count s j) r')
        → Map.get (drop_lease s fp r id).fixtures j ≡ some r'
        → HasSlots (lease_count (drop_lease s fp r id) j) r'
    drop_lease-slots j r' known h old e = elim (Bool-cases (fp == j)) [
      | inl same ↦
          subst₂ (λ k x. HasSlots (lease_count (drop_lease s fp r id) k) x)
            ((fingerprint_eq.beq_iff fp j).0 same) (ground (arith, fixtures-drop_lease s fp r id j))
            h
      | inr other ↦
          subst (λ n. HasSlots n r') (ground (arith, lease_count-drop_lease s fp r id j known))
            (old (ground (arith, fixtures-drop_lease s fp r id j)))
    ]

    -- A lease that is new comes with a fixture that has room for it.
    pub add_lease-IsValid :
        IsValid s
        → Map.get s.leases id ≡ none
        → HasSlots (lease_count s fp + 1) r
        → IsValid (add_lease s fp r id)
    unfolding add_lease
    add_lease-IsValid v fresh h = record {
      fixtures_map = Map.insert-IsMap s.fixtures fp r v.fixtures_map;
      leases_map = Map.insert-IsMap s.leases id _ v.leases_map;
      routed = λ j l. add_lease-routed j l (v.routed j l);
      slots = λ j r'. add_lease-slots j r' fresh h (v.slots j r');
    }

    pub drop_lease-IsValid :
        IsValid s
        → Map.get s.leases id ≡ some (record { fingerprint = fp })
        → HasSlots (lease_count (drop_lease s fp r id) fp) r
        → IsValid (drop_lease s fp r id)
    unfolding drop_lease
    drop_lease-IsValid v known h = record {
      fixtures_map = Map.insert-IsMap s.fixtures fp r v.fixtures_map;
      leases_map = Map.remove-IsMap s.leases id v.leases_map;
      routed = λ j l. drop_lease-routed j l v.leases_map (v.routed j l);
      slots = λ j r'. drop_lease-slots j r' known h (v.slots j r');
    }
