-- ===== src/Coordinator/Stored.antt =====
-- Predicates of all the fixtures that a state of src/coordinator/src/coordinator.rs stores.
use mathlib.Core.Path.{subst₂}
use rules_systemtest.Prelude.{◌≡◌, some, arith, ◌==◌, Bool-cases, inl, inr}
use rules_systemtest.Map
use rules_systemtest.Proto.{ReleaseRequest}
use rules_systemtest.Fixture.{FixtureFingerprint, FixtureRecord, fingerprint_eq}
use rules_systemtest.Lease.{LeaseId}
use rules_systemtest.Coordinator.Memory.{State, default}
use rules_systemtest.Coordinator.Leases.{release_lease, free_slot}
use rules_systemtest.Coordinator.Updates.{
  add_lease, drop_lease, fixtures-add_lease, fixtures-drop_lease,
}
use rules_systemtest.Coordinator.Invariant.{IsValid}
use rules_systemtest.Coordinator.Release.{release_valid_rule}

module _ {P : Type 0} (Q : FixtureFingerprint → FixtureRecord P → Type 0) where
  abbrev pub Stored : State P → Type 0
  Stored s =
      (fp : FixtureFingerprint) (r : FixtureRecord P) → Map.get s.fixtures fp ≡ some r → Q fp r

  pub default-Stored : Stored default
  unfolding default
  default-Stored fp r e = absurd (cc (e, Map.get-empty {V = FixtureRecord P} fp))

  module _ (s : State P) (fp : FixtureFingerprint) (r : FixtureRecord P) (id : LeaseId)
      (new : Q fp r) (old : Stored s) where
    pub add_lease-Stored : Stored (add_lease s fp r id)
    add_lease-Stored j r' e = elim (Bool-cases (fp == j)) [
      | inl same ↦
          subst₂ Q ((fingerprint_eq.beq_iff fp j).0 same)
            (ground (arith, fixtures-add_lease s fp r id j)) new
      | inr other ↦ old j r' (ground (arith, fixtures-add_lease s fp r id j))
    ]

    pub drop_lease-Stored : Stored (drop_lease s fp r id)
    drop_lease-Stored j r' e = elim (Bool-cases (fp == j)) [
      | inl same ↦
          subst₂ Q ((fingerprint_eq.beq_iff fp j).0 same)
            (ground (arith, fixtures-drop_lease s fp r id j)) new
      | inr other ↦ old j r' (ground (arith, fixtures-drop_lease s fp r id j))
    ]

  pub release-Stored :
      (s : State P) (req : ReleaseRequest)
      → IsValid s
      → ((fp : FixtureFingerprint) (r : FixtureRecord P) → Q fp r → Q fp (free_slot r))
      → Stored s
      → Stored (release_lease req s).1
  release-Stored s req v freed old =
      release_valid_rule s v Stored req (λ _. old)
        λ l r known found.
          drop_lease-Stored s l.fingerprint (free_slot r) _
            (freed l.fingerprint r (old l.fingerprint r found)) old
