-- ===== src/Coordinator/Preserved.antt =====
-- The invariant of src/coordinator/src/coordinator.rs along its steps and histories.
use rules_systemtest.Prelude.{
  ℕ, ◌≡◌, ◌≢◌, refl, sym, subst, inl, inr, Option, none, some, ◌+◌, arith, Option-cases,
}
use rules_systemtest.Prelude.Int.{pos}
use rules_systemtest.Map
use rules_systemtest.Os.{Os}
use rules_systemtest.Proto.{Sharing}
use rules_systemtest.Fixture.{FixtureFingerprint, FixtureRecord, Codec, fingerprint_eq}
use rules_systemtest.Lease.{LeaseId, LeaseRecord, lease_id_eq}
use rules_systemtest.Coordinator.Memory.{State, default}
use rules_systemtest.Coordinator.Slots.{or_default}
use rules_systemtest.Coordinator.TakeLease.{Process}
use rules_systemtest.Coordinator.Leases.{release_found, free_slot}
use rules_systemtest.Coordinator.Updates.{drop_lease, lease_count, lease_count-drop_self}
use rules_systemtest.Coordinator.Invariant.{
  HasSlots, IsValid, take_slot-HasSlots, free_slot-HasSlots, add_lease-IsValid, drop_lease-IsValid,
  default-IsValid,
}
use rules_systemtest.Coordinator.Step.{
  FitsI64, Step, begins, finishes, releases, Reaches, here, next,
}
use rules_systemtest.Coordinator.Cases.{begin_rule, finish_rule, release_rule, release_found_lem}

module _ {P : Type 0} where
  new_record-HasSlots :
      (n : ℕ) (sharing : Option Sharing) (r : FixtureRecord P)
      → FitsI64 sharing
      → r.sharing ≡ or_default sharing
      → r.used_slots ≡ pos 1
      → HasSlots (n + 1) r
  new_record-HasSlots n none r fits e u = ground arith
  new_record-HasSlots n (some sharing) r fits e u = ground arith

  pub known_fixture :
      (s : State P) (fp : FixtureFingerprint)
      → Map.get s.fixtures fp ≢ none
      → (r : FixtureRecord P) × (Map.get s.fixtures fp ≡ some r)
  known_fixture s fp h = elim (Option-cases (Map.get s.fixtures fp)) [
    | inl e ↦ absurd (h e)
    | inr found ↦ found
  ]

  pub release_found-IsValid :
      (s : State P) (id : LeaseId) (l : LeaseRecord)
      → IsValid s
      → Map.get s.leases id ≡ some l
      → IsValid (release_found s id (some l))
  release_found-IsValid s id l v known =
      let (r, found) = known_fixture s l.fingerprint (v.routed id l known) in
      let after = drop_lease s l.fingerprint (free_slot r) id in
      let count = lease_count-drop_self s l.fingerprint (free_slot r) id known in
      subst IsValid (sym (release_found_lem s id l r found)) (
        drop_lease-IsValid s l.fingerprint (free_slot r) id v known (
          free_slot-HasSlots (lease_count after l.fingerprint) r
            (subst (λ n. HasSlots n r) count (v.slots l.fingerprint r found))))

module _ (os : Os) (codec : Codec) where
  -- A step of any handler, by any caller, keeps the invariant: a lease leads to a fixture, the
  -- slots in use lie within the policy and do not exceed the leases, and each key stands once.
  pub Step-IsValid : {s t : State (Process os)} → Step os codec s t → IsValid s → IsValid t
  Step-IsValid {s} (begins req draws w fresh) v =
      begin_rule os codec IsValid s req draws w v λ fp r found reusable.
        add_lease-IsValid s fp _ _ v fresh
          (take_slot-HasSlots _ r (v.slots fp r found) reusable.free)
  Step-IsValid {s} (finishes p draws outcome w fresh fits) v =
      finish_rule os codec IsValid s p draws outcome w v λ plugin result.
        add_lease-IsValid s p.fingerprint _ _ v fresh
          (new_record-HasSlots _ p.desc.sharing _ fits refl refl)
  Step-IsValid {s} (releases req) v =
      release_rule IsValid s req (λ _. v) λ l known. release_found-IsValid s _ l v known

  -- A history from a valid state ends in a valid state.
  pub Reaches-stays-IsValid :
      {s t : State (Process os)} → IsValid s → Reaches os codec s t → IsValid t
  Reaches-stays-IsValid v here = v
  Reaches-stays-IsValid v (next r st) = Step-IsValid st (Reaches-stays-IsValid v r)

  -- In each state reached from the empty one by any interleaving of the three parts of the
  -- handlers that change it - first locks, second locks and releases, where lease ids are fresh
  -- and the limits of policies fit in an i64 - both tables are maps, each lease leads to a
  -- fixture, and the slots in use of each fixture are at least 0, at most the slots of its policy
  -- and at most the leases on it.
  pub Reaches-IsValid : {t : State (Process os)} → Reaches os codec default t → IsValid t
  Reaches-IsValid = Reaches-stays-IsValid default-IsValid
