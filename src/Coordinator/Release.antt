-- ===== src/Coordinator/Release.antt =====
-- `release_lease` of src/coordinator/src/coordinator.rs, for its own lease, for the others and for
-- the next client.
use rules_systemtest.Prelude.{
  ℕ, String, ◌≡◌, ◌≢◌, refl, sym, ap, ◌∙◌, subst, inl, inr, none, some, arith, if_self, if_ne,
  Option-cases,
}
use rules_systemtest.Prelude.Int.{◌<ℤ◌}
use rules_systemtest.Result.{err, not_found}
use rules_systemtest.Map
use rules_systemtest.Proto.{ReleaseRequest}
use rules_systemtest.Fixture.{FixtureFingerprint, FixtureRecord, fingerprint_eq}
use rules_systemtest.Lease
use rules_systemtest.Lease.{LeaseId, LeaseRecord, lease_id_eq}
use rules_systemtest.Coordinator.Memory.{State, max_slots}
use rules_systemtest.Coordinator.Slots.{attach, attach_lease}
use rules_systemtest.Coordinator.Leases.{
  keepalive, status, release_lease, release_found, free_slot, outputs_or_default, known,
}
use rules_systemtest.Coordinator.Updates.{drop_lease, fixtures-drop_lease, leases-drop_lease}
use rules_systemtest.Coordinator.Invariant.{IsValid, HasSlots}
use rules_systemtest.Coordinator.Cases.{release_rule, release_found_lem}
use rules_systemtest.Coordinator.Preserved.{known_fixture}
use rules_systemtest.Coordinator.Reuse.{Admits, attach-IsReusable}

module _ {P : Type 0} where
  keepalive_unknown :
      (lease_id : String) (t : State P)
      → Map.get t.leases (Lease.from lease_id) ≡ none
      → keepalive (record { lease_id = lease_id }) t ≡ err (not_found "unknown lease_id")
  unfolding keepalive
  keepalive_unknown lease_id t e = ap known e

  status_unknown :
      (lease_id : String) (t : State P)
      → Map.get t.leases (Lease.from lease_id) ≡ none
      → status (record { lease_id = lease_id }) t ≡ err (not_found "unknown lease_id")
  unfolding status
  status_unknown lease_id t e = ground arith

  release_unknown :
      (req : ReleaseRequest) (t : State P)
      → Map.get t.leases (Lease.from req.lease_id) ≡ none
      → (release_lease req t).1 ≡ t
  unfolding release_lease
  release_unknown req t e = ap (release_found t (Lease.from req.lease_id)) e

  status_same :
      (t s : State P) (lease_id : String)
      → Map.get t.leases (Lease.from lease_id) ≡ Map.get s.leases (Lease.from lease_id)
      → ((fp : FixtureFingerprint)
          → outputs_or_default (Map.get t.fixtures fp) ≡ outputs_or_default (Map.get s.fixtures fp))
      → status (record { lease_id = lease_id }) t ≡ status (record { lease_id = lease_id }) s
  unfolding status
  status_same t s lease_id e h = elim (Option-cases (Map.get s.leases (Lease.from lease_id))) [
    | inl missing ↦ ground arith
    | inr (l, found) ↦ ground (arith, h l.fingerprint)
  ]

  free_slot-room :
      (r : FixtureRecord P) (n : ℕ) → HasSlots n r → (free_slot r).used_slots <ℤ max_slots r.sharing
  free_slot-room r n h = ground arith

  release_known :
      (s : State P) (req : ReleaseRequest) (l : LeaseRecord) (r : FixtureRecord P)
      → Map.get s.leases (Lease.from req.lease_id) ≡ some l
      → Map.get s.fixtures l.fingerprint ≡ some r
      → (release_lease req s).1 ≡ drop_lease s l.fingerprint (free_slot r) (Lease.from req.lease_id)
  unfolding release_lease
  release_known s req l r known_lease found =
      let id = Lease.from req.lease_id in
      ap (release_found s id) known_lease ∙ release_found_lem s id l r found

  fixtures-release :
      (s : State P) (req : ReleaseRequest) (l : LeaseRecord) (r : FixtureRecord P)
      → Map.get s.leases (Lease.from req.lease_id) ≡ some l
      → Map.get s.fixtures l.fingerprint ≡ some r
      → Map.get (release_lease req s).1.fixtures l.fingerprint ≡ some (free_slot r)
  fixtures-release s req l r known_lease found =
      ap (λ (t : State P). Map.get t.fixtures l.fingerprint)
        (release_known s req l r known_lease found)
      ∙ fixtures-drop_lease s l.fingerprint (free_slot r) (Lease.from req.lease_id) l.fingerprint
      ∙ if_self l.fingerprint (some (free_slot r)) _

module _ {P : Type 0} (s : State P) (v : IsValid s) where
  -- In a valid state a release leaves the state as it was, or drops a known lease and stores its
  -- fixture with one slot less in use.
  pub release_valid_rule :
      (Q : State P → Type 0) (req : ReleaseRequest)
      → (Map.get s.leases (Lease.from req.lease_id) ≡ none → Q s)
      → ((l : LeaseRecord) (r : FixtureRecord P)
          → Map.get s.leases (Lease.from req.lease_id) ≡ some l
          → Map.get s.fixtures l.fingerprint ≡ some r
          → Q (drop_lease s l.fingerprint (free_slot r) (Lease.from req.lease_id)))
      → Q (release_lease req s).1
  release_valid_rule Q req q a = release_rule Q s req q λ l known.
      let (r, found) = known_fixture s l.fingerprint (v.routed _ l known) in
      subst Q (sym (release_found_lem s _ l r found)) (a l r known found)

  released-unknown :
      (req : ReleaseRequest)
      → Map.get (release_lease req s).1.leases (Lease.from req.lease_id) ≡ none
  released-unknown req =
      release_valid_rule (λ t. Map.get t.leases (Lease.from req.lease_id) ≡ none) req (λ e. e)
        λ l r known found.
          leases-drop_lease s l.fingerprint (free_slot r) _ _ v.leases_map
          ∙ if_self (Lease.from req.lease_id) none _

  -- In a valid state, after a release keepalive and status answer not_found for the lease, and a
  -- second release changes nothing.
  pub release-forgets :
      (req : ReleaseRequest)
      → (keepalive (record { lease_id = req.lease_id }) (release_lease req s).1
          ≡ err (not_found "unknown lease_id"))
        × (status (record { lease_id = req.lease_id }) (release_lease req s).1
            ≡ err (not_found "unknown lease_id"))
        × ((release_lease req (release_lease req s).1).1 ≡ (release_lease req s).1)
  release-forgets req = (
    keepalive_unknown _ _ (released-unknown req),
    status_unknown _ _ (released-unknown req),
    release_unknown _ _ (released-unknown req),
  )

  pub leases-release_ne :
      (req : ReleaseRequest) (id : LeaseId)
      → id ≢ Lease.from req.lease_id
      → Map.get (release_lease req s).1.leases id ≡ Map.get s.leases id
  leases-release_ne req id h =
      release_valid_rule (λ t. Map.get t.leases id ≡ Map.get s.leases id) req (λ _. refl)
        λ l r known found.
          leases-drop_lease s l.fingerprint (free_slot r) _ id v.leases_map
          ∙ if_ne _ id none _ (λ e. h (sym e))

  outputs-release :
      (req : ReleaseRequest) (fp : FixtureFingerprint)
      → outputs_or_default (Map.get (release_lease req s).1.fixtures fp)
        ≡ outputs_or_default (Map.get s.fixtures fp)
  outputs-release req fp =
      release_valid_rule
        (λ t.
          outputs_or_default (Map.get t.fixtures fp) ≡ outputs_or_default (Map.get s.fixtures fp))
        req (λ _. refl)
        λ l r known found. ground (
          arith,
          fixtures-drop_lease s l.fingerprint (free_slot r) (Lease.from req.lease_id) fp,
          fingerprint_eq.beq_iff l.fingerprint fp,
        )

  -- In a valid state, a release leaves the answers of keepalive and status for every other lease
  -- as they were.
  pub release-keeps :
      (req : ReleaseRequest) (other : String)
      → Lease.from other ≢ Lease.from req.lease_id
      → (keepalive (record { lease_id = other }) (release_lease req s).1
          ≡ keepalive (record { lease_id = other }) s)
        × (status (record { lease_id = other }) (release_lease req s).1
            ≡ status (record { lease_id = other }) s)
  unfolding keepalive
  release-keeps req other h = (
    ap known (leases-release_ne req (Lease.from other) h),
    status_same _ s _ (leases-release_ne req (Lease.from other) h) (outputs-release req),
  )

  -- In a valid state, after the release of a known lease the scope of the fixture alone decides: a
  -- client it admits attaches to the fixture next.
  pub attach-release :
      (req : ReleaseRequest) (l : LeaseRecord) (r : FixtureRecord P) (client_id : String)
      (id : LeaseId)
      → Map.get s.leases (Lease.from req.lease_id) ≡ some l
      → Map.get s.fixtures l.fingerprint ≡ some r
      → Admits r.sharing.use_scope r.creating_client_id client_id
      → attach (release_lease req s).1 l.fingerprint client_id id
        ≡ some (attach_lease (release_lease req s).1 l.fingerprint (free_slot r) id)
  attach-release req l r client_id id known_lease found admits =
      attach-IsReusable (release_lease req s).1 l.fingerprint client_id id (free_slot r)
        (fixtures-release s req l r known_lease found)
        (record { admitted = admits; free = free_slot-room r _ (v.slots l.fingerprint r found) })
