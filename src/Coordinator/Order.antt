-- ===== src/Coordinator/Order.antt =====
-- Releases of leases in src/coordinator/src/coordinator.rs, in either order.
use rules_systemtest.Prelude.{
  ◌≡◌, refl, sym, ap, ◌∙◌, inl, inr, Option, none, some, Bool, true, false, ◌==◌, ==_comm,
  if◌then◌else◌, Bool-cases,
}
use rules_systemtest.Map
use rules_systemtest.Map.{Map}
use rules_systemtest.Proto.{ReleaseRequest}
use rules_systemtest.Fixture.{FixtureFingerprint, FixtureRecord, fingerprint_eq}
use rules_systemtest.Lease
use rules_systemtest.Lease.{LeaseId, LeaseRecord, lease_id_eq}
use rules_systemtest.Coordinator.Memory.{State}
use rules_systemtest.Coordinator.Leases.{release_lease, free_slot}
use rules_systemtest.Coordinator.Updates.{fixtures-drop_lease, leases-drop_lease}
use rules_systemtest.Coordinator.Invariant.{IsValid}
use rules_systemtest.Coordinator.Cases.{release_rule}
use rules_systemtest.Coordinator.Preserved.{release_found-IsValid}
use rules_systemtest.Coordinator.Release.{release_valid_rule}

-- What two tests each add, they add in either order.
swap_same {ℓ} :
    {A : Type ℓ} (f : A → A) (x y : Bool) (a : A)
    → (if x then f (if y then f a else a) else if y then f a else a)
      ≡ (if y then f (if x then f a else a) else if x then f a else a)
swap_same f true true a = refl
swap_same f true false a = refl
swap_same f false true a = refl
swap_same f false false a = refl

-- The two states have the same fixtures and the same leases.
pub record SameTables {P : Type 0} (s t : State P) : Type 0 where
  pub fixtures : (fp : FixtureFingerprint) → Map.get s.fixtures fp ≡ Map.get t.fixtures fp
  pub leases : (id : LeaseId) → Map.get s.leases id ≡ Map.get t.leases id

module _ {P : Type 0} where
  abbrev free_some : Option (FixtureRecord P) → Option (FixtureRecord P)
  free_some none = none
  free_some (some r) = some (free_slot r)

  -- What the release of a lease makes of the entry of a fixture.
  abbrev pub freed :
      Option LeaseRecord → FixtureFingerprint → Option (FixtureRecord P) → Option (FixtureRecord P)
  freed none fp o = o
  freed (some l) fp o = if l.fingerprint == fp then free_some o else o

  module _ (s : State P) (v : IsValid s) (req : ReleaseRequest) where
    release-IsValid : IsValid (release_lease req s).1
    release-IsValid =
        release_rule IsValid s req (λ _. v) λ l known. release_found-IsValid s _ l v known

    missing_if :
        (id j : LeaseId)
        → Map.get s.leases id ≡ none
        → Map.get s.leases j ≡ (if id == j then none else Map.get s.leases j)
    missing_if id j missing = elim (Bool-cases (id == j)) [
      | inl same ↦ rw same (cc (missing, (lease_id_eq.beq_iff id j).0 same))
      | inr differ ↦ rw differ refl
    ]

    stored_if :
        (l : LeaseRecord) (fp : FixtureFingerprint) (r : FixtureRecord P)
        → Map.get s.fixtures l.fingerprint ≡ some r
        → (if l.fingerprint == fp then some (free_slot r) else Map.get s.fixtures fp)
          ≡ freed (some l) fp (Map.get s.fixtures fp)
    stored_if l fp r found = elim (Bool-cases (l.fingerprint == fp)) [
      | inl same ↦
          let e : l.fingerprint ≡ fp = (fingerprint_eq.beq_iff l.fingerprint fp).0 same in
          let at : Map.get s.fixtures fp ≡ some r = cc (e, found) in rw (same, at) refl
      | inr differ ↦ rw differ refl
    ]

    pub leases-release :
        (j : LeaseId)
        → Map.get (release_lease req s).1.leases j
          ≡ (if Lease.from req.lease_id == j then none else Map.get s.leases j)
    leases-release j =
        release_valid_rule s v
          (λ t.
            Map.get t.leases j
            ≡ (if Lease.from req.lease_id == j then none else Map.get s.leases j))
          req (λ missing. missing_if (Lease.from req.lease_id) j missing)
          λ l r known found. leases-drop_lease s l.fingerprint (free_slot r) _ j v.leases_map

    pub fixtures-release :
        (fp : FixtureFingerprint)
        → Map.get (release_lease req s).1.fixtures fp
          ≡ freed (Map.get s.leases (Lease.from req.lease_id)) fp (Map.get s.fixtures fp)
    fixtures-release fp =
        release_valid_rule s v
          (λ t.
            Map.get t.fixtures fp
            ≡ freed (Map.get s.leases (Lease.from req.lease_id)) fp (Map.get s.fixtures fp))
          req (λ missing. rw missing refl)
          λ l r known found.
            rw known
              (fixtures-drop_lease s l.fingerprint (free_slot r) _ fp ∙ stored_if l fp r found)

  freed-commutes :
      (a b : Option LeaseRecord) (fp : FixtureFingerprint) (o : Option (FixtureRecord P))
      → freed a fp (freed b fp o) ≡ freed b fp (freed a fp o)
  freed-commutes none b fp o = refl
  freed-commutes (some l) none fp o = refl
  freed-commutes (some l) (some k) fp o =
      swap_same free_some (l.fingerprint == fp) (k.fingerprint == fp) o

  module _ (s : State P) (v : IsValid s) (a b : ReleaseRequest) where
    leases-twice :
        (j : LeaseId)
        → Map.get (release_lease b (release_lease a s).1).1.leases j ≡ (
            if Lease.from b.lease_id == j
            then none
            else if Lease.from a.lease_id == j
            then none
            else Map.get s.leases j)
    leases-twice j =
        rw
          (leases-release (release_lease a s).1 (release-IsValid s v a) b j, leases-release s v a j)
          refl

    fixtures-twice :
        (fp : FixtureFingerprint)
        → Map.get (release_lease b (release_lease a s).1).1.fixtures fp
          ≡ freed
              (if Lease.from a.lease_id == Lease.from b.lease_id
                then none
                else Map.get s.leases (Lease.from b.lease_id))
              fp
              (freed (Map.get s.leases (Lease.from a.lease_id)) fp (Map.get s.fixtures fp))
    fixtures-twice fp =
        rw
          (
            fixtures-release (release_lease a s).1 (release-IsValid s v a) b fp,
            leases-release s v a (Lease.from b.lease_id),
            fixtures-release s v a fp,
          )
          refl

  -- The second of two releases of one lease finds no lease.
  freed_twice :
      (get : LeaseId → Option LeaseRecord) (i j : LeaseId) (fp : FixtureFingerprint)
      (o : Option (FixtureRecord P))
      → freed (if i == j then none else get j) fp (freed (get i) fp o)
        ≡ freed (if j == i then none else get i) fp (freed (get j) fp o)
  freed_twice get i j fp o = elim (Bool-cases (i == j)) [
    | inl same ↦
        rw (sym (==_comm i j), same)
          (ap (λ id. freed (get id) fp o) ((lease_id_eq.beq_iff i j).0 same))
    | inr differ ↦ rw (sym (==_comm i j), differ) (freed-commutes (get j) (get i) fp o)
  ]

  -- In a valid state, two releases in either order, be it of two leases on one fixture, on two
  -- fixtures, of one lease or of unknown ones, leave the same fixtures and the same leases.
  pub release-commutes :
      (s : State P) (a b : ReleaseRequest)
      → IsValid s
      → SameTables
          (release_lease b (release_lease a s).1).1
          (release_lease a (release_lease b s).1).1
  release-commutes s a b v = record {
    fixtures = λ fp.
        fixtures-twice s v a b fp
        ∙ freed_twice (Map.get s.leases) _ _ fp (Map.get s.fixtures fp)
        ∙ sym (fixtures-twice s v b a fp);
    leases = λ j.
        leases-twice s v a b j
        ∙ swap_same (λ _. none) (Lease.from b.lease_id == j) (Lease.from a.lease_id == j) _
        ∙ sym (leases-twice s v b a j);
  }
