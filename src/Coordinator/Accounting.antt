-- ===== src/Coordinator/Accounting.antt =====
-- Slots against leases in src/coordinator/src/coordinator.rs, in the histories in which no fixture
-- is replaced by another one with the same fingerprint.
use rules_systemtest.Prelude.{ℕ, ◌+◌, ◌≡◌, sym, ap, ◌∙◌, subst, none, some, arith}
use rules_systemtest.Prelude.Int.{pos, ◌≤ℤ◌, ◌<ℤ◌}
use rules_systemtest.Map
use rules_systemtest.Os.{Os}
use rules_systemtest.Fixture.{FixtureFingerprint, FixtureRecord, Codec, fingerprint_eq}
use rules_systemtest.Lease.{LeaseId, LeaseRecord, lease_id_eq}
use rules_systemtest.Coordinator.Memory.{State, max_slots, default}
use rules_systemtest.Coordinator.TakeLease.{Process}
use rules_systemtest.Coordinator.Leases.{release_found, free_slot}
use rules_systemtest.Coordinator.Updates.{
  on, add_lease, drop_lease, lease_count, lease_count-add_lease, lease_count-drop_lease,
  fixtures-add_lease, fixtures-drop_lease, lease_count-drop_self,
}
use rules_systemtest.Coordinator.Invariant.{HasSlots, IsValid, default-IsValid}
use rules_systemtest.Coordinator.Step.{Step, begins, finishes, releases}
use rules_systemtest.Coordinator.Cases.{
  take_slot, begin_rule, finish_rule, release_rule, release_found_lem,
}
use rules_systemtest.Coordinator.Preserved.{Step-IsValid, known_fixture}

module _ {P : Type 0} where
  -- Each slot in use is a lease, and each lease uses a slot.
  abbrev pub IsExact : State P → Type 0
  IsExact s =
      (fp : FixtureFingerprint) (r : FixtureRecord P)
      → Map.get s.fixtures fp ≡ some r
      → r.used_slots ≡ pos (lease_count s fp)

  default-IsExact : IsExact default
  unfolding default
  default-IsExact fp r e = cc (e, Map.get-empty {V = FixtureRecord P} fp)

  pub lease_count-absent :
      (s : State P) (fp : FixtureFingerprint)
      → IsValid s
      → Map.get s.fixtures fp ≡ none
      → lease_count s fp ≡ 0
  lease_count-absent s fp v absent =
      Map.count-eq-zero (on fp) s.leases v.leases_map
        λ id l e. ground (arith, v.routed id l e, fingerprint_eq.beq_iff l.fingerprint fp)

  module _ (s : State P) (fp : FixtureFingerprint) (r : FixtureRecord P) (id : LeaseId) where
    add_lease-IsExact :
        Map.get s.leases id ≡ none
        → r.used_slots ≡ pos (lease_count s fp + 1)
        → IsExact s
        → IsExact (add_lease s fp r id)
    add_lease-IsExact fresh used x j r' e = ground (
      arith,
      x j r',
      fingerprint_eq.beq_iff fp j,
      fixtures-add_lease s fp r id j,
      lease_count-add_lease s fp r id j fresh,
    )

    drop_lease-IsExact :
        Map.get s.leases id ≡ some (record { fingerprint = fp })
        → r.used_slots ≡ pos (lease_count (drop_lease s fp r id) fp)
        → IsExact s
        → IsExact (drop_lease s fp r id)
    drop_lease-IsExact known used x j r' e = ground (
      arith,
      x j r',
      fingerprint_eq.beq_iff fp j,
      fixtures-drop_lease s fp r id j,
      lease_count-drop_lease s fp r id j known,
    )

  take_slot_exact :
      (n : ℕ) (r : FixtureRecord P)
      → HasSlots n r
      → r.used_slots <ℤ max_slots r.sharing
      → r.used_slots ≡ pos n
      → (take_slot r).used_slots ≡ pos (n + 1)
  take_slot_exact n r h free e = ground arith

  free_slot_exact :
      (n : ℕ) (r : FixtureRecord P)
      → HasSlots (n + 1) r
      → r.used_slots ≡ pos (n + 1)
      → (free_slot r).used_slots ≡ pos n
  free_slot_exact n r h e = ground arith

  release_found-IsExact :
      (s : State P) (id : LeaseId) (l : LeaseRecord)
      → IsValid s
      → Map.get s.leases id ≡ some l
      → IsExact s
      → IsExact (release_found s id (some l))
  release_found-IsExact s id l v known x =
      let (r, found) = known_fixture s l.fingerprint (v.routed id l known) in
      let count : lease_count s l.fingerprint
          ≡ lease_count (drop_lease s l.fingerprint (free_slot r) id) l.fingerprint + 1 =
        lease_count-drop_self s l.fingerprint (free_slot r) id known in
      subst IsExact (sym (release_found_lem s id l r found)) (
        drop_lease-IsExact s l.fingerprint (free_slot r) id known
          (free_slot_exact _ r (subst (λ n. HasSlots n r) count (v.slots l.fingerprint r found))
            (x l.fingerprint r found ∙ ap pos count))
          x)

module _ (os : Os) (codec : Codec) where
  -- No fixture with the fingerprint is there to be replaced.
  abbrev pub IsNew : {s t : State (Process os)} → Step os codec s t → Type 0
  IsNew {s} (begins req draws w fresh) = Unit {0}
  IsNew {s} (finishes p draws outcome w fresh fits) = Map.get s.fixtures p.fingerprint ≡ none
  IsNew {s} (releases req) = Unit {0}

  Step-IsExact :
      {s t : State (Process os)} (st : Step os codec s t)
      → IsNew st
      → IsValid s
      → IsExact s
      → IsExact t
  Step-IsExact {s} (begins req draws w fresh) n v x =
      begin_rule os codec IsExact s req draws w x λ fp r found reusable.
        add_lease-IsExact s fp _ _ fresh
          (take_slot_exact _ r (v.slots fp r found) reusable.free (x fp r found)) x
  Step-IsExact {s} (finishes p draws outcome w fresh fits) n v x =
      finish_rule os codec IsExact s p draws outcome w x λ plugin result.
        add_lease-IsExact s p.fingerprint _ _ fresh
          (ground (arith, lease_count-absent s p.fingerprint v n)) x
  Step-IsExact {s} (releases req) n v x =
      release_rule IsExact s req (λ _. x) λ l known. release_found-IsExact s _ l v known x

  -- Histories in which no fixture is replaced.
  pub data Grows : State (Process os) → Type 0 where
    start : Grows default
    grow : {s t : State (Process os)} → Grows s → (st : Step os codec s t) → IsNew st → Grows t

  pub Grows-IsValid : {s : State (Process os)} → Grows s → IsValid s
  Grows-IsValid start = default-IsValid
  Grows-IsValid (grow g st n) = Step-IsValid os codec st (Grows-IsValid g)

  -- In each state reached from the empty one, with fresh lease ids, limits that fit in an i64 and
  -- no fixture registered over another one with its fingerprint, the slots in use of each fixture
  -- are exactly the leases on it.
  pub Grows-IsExact : {s : State (Process os)} → Grows s → IsExact s
  Grows-IsExact start = default-IsExact
  Grows-IsExact (grow g st n) = Step-IsExact st n (Grows-IsValid g) (Grows-IsExact g)

  -- In each state reached from the empty one, with fresh lease ids, limits that fit in an i64 and
  -- no fixture registered over another one with its fingerprint, the leases on a fixture are at
  -- most the slots of its policy.
  pub Grows-within :
      {s : State (Process os)} (fp : FixtureFingerprint) (r : FixtureRecord (Process os))
      → Grows s
      → Map.get s.fixtures fp ≡ some r
      → pos (lease_count s fp) ≤ℤ max_slots r.sharing
  Grows-within {s} fp r g found =
      subst (λ n. n ≤ℤ max_slots r.sharing) (Grows-IsExact g fp r found)
        ((Grows-IsValid g).slots fp r found).within
