-- ===== src/Coordinator/Lasting.antt =====
-- What stays in the tables of src/coordinator/src/coordinator.rs along a history: the leases that no
-- one releases, and every fixture.
use rules_systemtest.Prelude.{
  String, ◌≡◌, ◌≢◌, ap, ◌∙◌, none, some, arith, if_ne, inl, inr, Option-cases,
}
use rules_systemtest.Result.{ok}
use rules_systemtest.Map
use rules_systemtest.Os.{Os}
use rules_systemtest.Fixture.{FixtureFingerprint, FixtureRecord, Codec, fingerprint_eq}
use rules_systemtest.Lease
use rules_systemtest.Lease.{LeaseId, LeaseRecord, lease_id_eq}
use rules_systemtest.Coordinator.Memory.{State}
use rules_systemtest.Coordinator.TakeLease.{Process}
use rules_systemtest.Coordinator.Leases.{keepalive, known}
use rules_systemtest.Coordinator.Updates.{
  add_lease, drop_lease, fixtures-add_lease, drop_lease, fixtures-drop_lease, leases-add_lease,
}
use rules_systemtest.Coordinator.Invariant.{IsValid}
use rules_systemtest.Coordinator.Cases.{begin_rule, finish_rule}
use rules_systemtest.Coordinator.Step.{Step, begins, finishes, releases, Reaches, here, next}
use rules_systemtest.Coordinator.Preserved.{Reaches-stays-IsValid}
use rules_systemtest.Coordinator.Release.{release_valid_rule, leases-release_ne}

module _ {P : Type 0} (s : State P) where
  add_lease-lasts :
      (fp : FixtureFingerprint) (r : FixtureRecord P) (new id : LeaseId) (l : LeaseRecord)
      → Map.get s.leases new ≡ none
      → Map.get s.leases id ≡ some l
      → Map.get (add_lease s fp r new).leases id ≡ some l
  add_lease-lasts fp r new id l fresh held =
      leases-add_lease s fp r new id
      ∙ if_ne new id _ _ (λ e. cc (fresh, held, ap (λ (i : LeaseId). Map.get s.leases i) e))
      ∙ held

  add_lease-keeps :
      (fp j : FixtureFingerprint) (r : FixtureRecord P) (new : LeaseId)
      → Map.get s.fixtures j ≢ none
      → Map.get (add_lease s fp r new).fixtures j ≢ none
  add_lease-keeps fp j r new stored = ground (arith, fixtures-add_lease s fp r new j)

  drop_lease-keeps :
      (fp j : FixtureFingerprint) (r : FixtureRecord P) (id : LeaseId)
      → Map.get s.fixtures j ≢ none
      → Map.get (drop_lease s fp r id).fixtures j ≢ none
  drop_lease-keeps fp j r id stored = ground (arith, fixtures-drop_lease s fp r id j)

  keepalive-known :
      (lease_id : String)
      → keepalive (record { lease_id = lease_id }) s ≡ ok (record {})
      → (l : LeaseRecord) × (Map.get s.leases (Lease.from lease_id) ≡ some l)
  unfolding keepalive
  keepalive-known lease_id e = elim (Option-cases (Map.get s.leases (Lease.from lease_id))) [
    | inl missing ↦ cc (e, ap known missing)
    | inr found ↦ found
  ]

module _ (os : Os) (codec : Codec) where
  -- The step releases another lease, or none.
  abbrev pub Spares : {s t : State (Process os)} → LeaseId → Step os codec s t → Type 0
  Spares id (begins _ _ _ _) = Unit {0}
  Spares id (finishes _ _ _ _ _ _) = Unit {0}
  Spares id (releases req) = id ≢ Lease.from req.lease_id

  -- No step of the history releases the lease.
  abbrev pub Without : {s t : State (Process os)} → LeaseId → Reaches os codec s t → Type 0
  Without id here = Unit {0}
  Without id (next r st) = Without id r × Spares id st

  Step-lasts :
      {s t : State (Process os)} (id : LeaseId) (l : LeaseRecord) (st : Step os codec s t)
      → IsValid s
      → Spares id st
      → Map.get s.leases id ≡ some l
      → Map.get t.leases id ≡ some l
  Step-lasts {s} id l (begins req draws w fresh) v _ held =
      begin_rule os codec (λ t. Map.get t.leases id ≡ some l) s req draws w held
        λ fp r found reusable. add_lease-lasts s fp _ _ id l fresh held
  Step-lasts {s} id l (finishes p draws outcome w fresh fits) v _ held =
      finish_rule os codec (λ t. Map.get t.leases id ≡ some l) s p draws outcome w held
        λ plugin result. add_lease-lasts s p.fingerprint _ _ id l fresh held
  Step-lasts {s} id l (releases req) v other held = leases-release_ne s v req id other ∙ held

  Step-keeps :
      {s t : State (Process os)} (fp : FixtureFingerprint) (st : Step os codec s t)
      → IsValid s
      → Map.get s.fixtures fp ≢ none
      → Map.get t.fixtures fp ≢ none
  Step-keeps {s} fp (begins req draws w fresh) v stored =
      begin_rule os codec (λ t. Map.get t.fixtures fp ≢ none) s req draws w stored
        λ fp' r found reusable. add_lease-keeps s fp' fp _ _ stored
  Step-keeps {s} fp (finishes p draws outcome w fresh fits) v stored =
      finish_rule os codec (λ t. Map.get t.fixtures fp ≢ none) s p draws outcome w stored
        λ plugin result. add_lease-keeps s p.fingerprint fp _ _ stored
  Step-keeps {s} fp (releases req) v stored =
      release_valid_rule s v (λ t. Map.get t.fixtures fp ≢ none) req (λ _. stored)
        λ l r known found. drop_lease-keeps s l.fingerprint fp _ _ stored

  pub Reaches-known :
      {s t : State (Process os)} (id : LeaseId) (l : LeaseRecord) (r : Reaches os codec s t)
      → IsValid s
      → Without id r
      → Map.get s.leases id ≡ some l
      → Map.get t.leases id ≡ some l
  Reaches-known id l here v _ held = held
  Reaches-known id l (next r st) v (before, last) held =
      Step-lasts id l st (Reaches-stays-IsValid os codec v r) last
        (Reaches-known id l r v before held)

  -- From a valid state, along any history of steps none of which releases the lease, a lease that
  -- keepalive knows stays known to keepalive, whether or not any keepalive comes.
  pub Reaches-keepalive :
      {s t : State (Process os)} (lease_id : String) (r : Reaches os codec s t)
      → IsValid s
      → Without (Lease.from lease_id) r
      → keepalive (record { lease_id = lease_id }) s ≡ ok (record {})
      → keepalive (record { lease_id = lease_id }) t ≡ ok (record {})
  unfolding keepalive
  Reaches-keepalive {s} lease_id r v spared alive =
      let (l, held) = keepalive-known s lease_id alive in
      ap known (Reaches-known (Lease.from lease_id) l r v spared held)

  -- From a valid state no step takes a fixture out of the table.
  Reaches-fixtures :
      {s t : State (Process os)} (fp : FixtureFingerprint)
      → Reaches os codec s t
      → IsValid s
      → Map.get s.fixtures fp ≢ none
      → Map.get t.fixtures fp ≢ none
  Reaches-fixtures fp here v stored = stored
  Reaches-fixtures fp (next r st) v stored =
      Step-keeps fp st (Reaches-stays-IsValid os codec v r) (Reaches-fixtures fp r v stored)
