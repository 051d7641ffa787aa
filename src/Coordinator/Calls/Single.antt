-- ===== src/Coordinator/Calls/Single.antt =====
-- Fixtures for a single use: at most one lease is on such a fixture.
use rules_systemtest.Prelude.{String, ◌≤◌, ◌≡◌, Option, none, some, arith}
use rules_systemtest.Map
use rules_systemtest.Proto.{UseScope, unrestricted, client_restricted, single_use}
use rules_systemtest.Fixture.{FixtureFingerprint, FixtureRecord, fingerprint_eq}
use rules_systemtest.Lease.{LeaseId, lease_id_eq}
use rules_systemtest.Coordinator.Memory.{State, default}
use rules_systemtest.Coordinator.Updates.{
  add_lease, drop_lease, lease_count, lease_count-add_lease, lease_count-drop_lease,
  fixtures-add_lease, fixtures-drop_lease,
}
use rules_systemtest.Coordinator.Reuse.{Admits}

abbrev pub IsSingleUse : Option UseScope → Type 0
IsSingleUse (some (single_use _)) = Unit {0}
IsSingleUse (some (unrestricted _)) = ⊥
IsSingleUse (some (client_restricted _)) = ⊥
IsSingleUse none = ⊥

pub Admits-not-IsSingleUse :
    (scope : Option UseScope) (creator client : String)
    → Admits scope creator client
    → ¬ IsSingleUse scope
Admits-not-IsSingleUse (some (single_use _)) creator client h u = h
Admits-not-IsSingleUse (some (unrestricted _)) creator client h u = u
Admits-not-IsSingleUse (some (client_restricted _)) creator client h u = u
Admits-not-IsSingleUse none creator client h u = u

module _ {P : Type 0} where
  abbrev pub IsAlone : State P → Type 0
  IsAlone s =
      (fp : FixtureFingerprint) (r : FixtureRecord P)
      → Map.get s.fixtures fp ≡ some r
      → IsSingleUse r.sharing.use_scope
      → lease_count s fp ≤ 1

  pub default-IsAlone : IsAlone default
  unfolding default
  default-IsAlone fp r e u = absurd (cc (e, Map.get-empty {V = FixtureRecord P} fp))

  module _ (s : State P) (fp : FixtureFingerprint) (r : FixtureRecord P) (id : LeaseId) where
    pub add_lease-IsAlone :
        Map.get s.leases id ≡ none
        → (IsSingleUse r.sharing.use_scope → lease_count s fp ≡ 0)
        → IsAlone s
        → IsAlone (add_lease s fp r id)
    add_lease-IsAlone fresh empty old j r' e u = ground (
      arith,
      old j r',
      fingerprint_eq.beq_iff fp j,
      fixtures-add_lease s fp r id j,
      lease_count-add_lease s fp r id j fresh,
    )

    pub drop_lease-IsAlone :
        Map.get s.leases id ≡ some (record { fingerprint = fp })
        → (IsSingleUse r.sharing.use_scope → lease_count s fp ≤ 1)
        → IsAlone s
        → IsAlone (drop_lease s fp r id)
    drop_lease-IsAlone known alone old j r' e u = ground (
      arith,
      old j r',
      fingerprint_eq.beq_iff fp j,
      fixtures-drop_lease s fp r id j,
      lease_count-drop_lease s fp r id j known,
    )
