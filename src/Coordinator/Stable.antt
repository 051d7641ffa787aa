-- ===== src/Coordinator/Stable.antt =====
-- What a client that holds a lease goes on to see, along a history of the coordinator of
-- src/coordinator/src/coordinator.rs: the outputs of its fixture, and the plugin behind it.
use rules_systemtest.Prelude.{String, ◌≡◌, ◌≢◌, refl, ap, ◌∙◌, Option, none, some, arith, if_ne}
use rules_systemtest.Result.{ok, err}
use rules_systemtest.Map
use rules_systemtest.Os.{Os}
use rules_systemtest.Proto.{BTreeMap, Value}
use rules_systemtest.Fixture.{FixtureFingerprint, FixtureRecord, Codec, fingerprint_eq}
use rules_systemtest.Lease
use rules_systemtest.Lease.{LeaseId, LeaseRecord, lease_id_eq}
use rules_systemtest.Coordinator.Memory.{State}
use rules_systemtest.Coordinator.TakeLease.{Process, finish}
use rules_systemtest.Coordinator.Leases.{status, outputs_or_default, free_slot}
use rules_systemtest.Coordinator.Updates.{
  add_lease, drop_lease, fixtures-add_lease, fixtures-drop_lease,
}
use rules_systemtest.Coordinator.Invariant.{IsValid}
use rules_systemtest.Coordinator.Cases.{begin_rule, finish_rule, take_slot}
use rules_systemtest.Coordinator.Step.{Step, begins, finishes, releases, Reaches, here, next}
use rules_systemtest.Coordinator.Preserved.{Reaches-stays-IsValid}
use rules_systemtest.Coordinator.Release.{release_valid_rule}
use rules_systemtest.Coordinator.Lasting.{Without, Reaches-known}

module _ {P : Type 0} where
  -- What the holder of a lease depends on: the outputs, and the plugin that was started.
  abbrev pub face : Option (FixtureRecord P) → Option (BTreeMap String Value × P)
  face none = none
  face (some r) = some (r.outputs, r.plugin)

  abbrev pub backing : State P → FixtureFingerprint → Option (BTreeMap String Value × P)
  backing s fp = face (Map.get s.fixtures fp)

  module _ (s : State P) where
    backing-take :
        (fp j : FixtureFingerprint) (r : FixtureRecord P) (id : LeaseId)
        → Map.get s.fixtures fp ≡ some r
        → backing (add_lease s fp (take_slot r) id) j ≡ backing s j
    backing-take fp j r id found =
        ground (arith, fixtures-add_lease s fp (take_slot r) id j, fingerprint_eq.beq_iff fp j)

    backing-free :
        (fp j : FixtureFingerprint) (r : FixtureRecord P) (id : LeaseId)
        → Map.get s.fixtures fp ≡ some r
        → backing (drop_lease s fp (free_slot r) id) j ≡ backing s j
    backing-free fp j r id found =
        ground (arith, fixtures-drop_lease s fp (free_slot r) id j, fingerprint_eq.beq_iff fp j)

    backing-add :
        (fp j : FixtureFingerprint) (r : FixtureRecord P) (id : LeaseId)
        → fp ≢ j
        → backing (add_lease s fp r id) j ≡ backing s j
    backing-add fp j r id other = ap face (fixtures-add_lease s fp r id j ∙ if_ne fp j _ _ other)

  face-outputs :
      (o p : Option (FixtureRecord P))
      → face o ≡ face p
      → outputs_or_default o ≡ outputs_or_default p
  face-outputs none none same = refl
  face-outputs none (some r) same = cc
  face-outputs (some r) none same = cc
  face-outputs (some r) (some q) same = cc

  status-backing :
      (s t : State P) (lease_id : String) (l : LeaseRecord)
      → Map.get s.leases (Lease.from lease_id) ≡ some l
      → Map.get t.leases (Lease.from lease_id) ≡ some l
      → backing t l.fingerprint ≡ backing s l.fingerprint
      → status (record { lease_id = lease_id }) t ≡ status (record { lease_id = lease_id }) s
  unfolding status
  status-backing s t lease_id l held kept same = ground (arith, face-outputs _ _ same)

module _ (os : Os) (codec : Codec) where
  -- The step registers no fixture under the fingerprint.
  abbrev pub Leaves : {s t : State (Process os)} → FixtureFingerprint → Step os codec s t → Type 0
  Leaves fp (begins _ _ _ _) = Unit {0}
  Leaves fp (finishes p _ (ok _) _ _ _) = p.fingerprint ≢ fp
  Leaves fp (finishes _ _ (err _) _ _ _) = Unit {0}
  Leaves fp (releases _) = Unit {0}

  -- No step of the history registers a fixture under the fingerprint.
  abbrev pub Unreplaced :
      {s t : State (Process os)} → FixtureFingerprint → Reaches os codec s t → Type 0
  Unreplaced fp here = Unit {0}
  Unreplaced fp (next r st) = Unreplaced fp r × Leaves fp st

  Step-backing :
      {s t : State (Process os)} (fp : FixtureFingerprint) (st : Step os codec s t)
      → IsValid s
      → Leaves fp st
      → backing t fp ≡ backing s fp
  unfolding finish
  Step-backing {s} fp (begins req draws w fresh) v _ =
      begin_rule os codec (λ t. backing t fp ≡ backing s fp) s req draws w refl
        λ fp' r found reusable. backing-take s fp' fp r _ found
  Step-backing {s} fp (finishes p draws (ok outcome) w fresh fits) v other =
      finish_rule os codec (λ t. backing t fp ≡ backing s fp) s p draws (ok outcome) w refl
        λ plugin result. backing-add s p.fingerprint fp _ _ other
  Step-backing {s} fp (finishes p draws (err e) w fresh fits) v _ = refl
  Step-backing {s} fp (releases req) v _ =
      release_valid_rule s v (λ t. backing t fp ≡ backing s fp) req (λ _. refl)
        λ l r known found. backing-free s l.fingerprint fp r _ found

  Reaches-backing :
      {s t : State (Process os)} (fp : FixtureFingerprint) (r : Reaches os codec s t)
      → IsValid s
      → Unreplaced fp r
      → backing t fp ≡ backing s fp
  Reaches-backing fp here v _ = refl
  Reaches-backing fp (next r st) v (before, last) =
      Step-backing fp st (Reaches-stays-IsValid os codec v r) last ∙ Reaches-backing fp r v before

  -- From a valid state, along any history of steps none of which releases the lease or registers a
  -- fixture under the fingerprint of its fixture, status of a held lease answers as it did, and
  -- the fixture keeps its outputs and the plugin that was started for it.
  pub Reaches-status :
      {s t : State (Process os)} (lease_id : String) (l : LeaseRecord) (r : Reaches os codec s t)
      → IsValid s
      → Map.get s.leases (Lease.from lease_id) ≡ some l
      → Without os codec (Lease.from lease_id) r
      → Unreplaced l.fingerprint r
      → (status (record { lease_id = lease_id }) t ≡ status (record { lease_id = lease_id }) s)
        × (backing t l.fingerprint ≡ backing s l.fingerprint)
  Reaches-status {s} {t} lease_id l r v held spared left =
      let same = Reaches-backing l.fingerprint r v left in
      (
        status-backing s t lease_id l held
            (Reaches-known os codec (Lease.from lease_id) l r v spared held) same,
        same,
      )
