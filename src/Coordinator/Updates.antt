-- ===== src/Coordinator/Updates.antt =====
-- The two ways in which the handlers change the state: a lease comes with a stored fixture, and a
-- lease goes with one. Lookups and counts after each.
use rules_systemtest.Prelude.{ℕ, ◌+◌, ◌≡◌, ap, ◌∙◌, if_self, Bool, none, some, ◌==◌, if◌then◌else◌}
use rules_systemtest.Map
use rules_systemtest.Map.{IsMap}
use rules_systemtest.Fixture.{FixtureFingerprint, FixtureRecord, fingerprint_eq}
use rules_systemtest.Lease.{LeaseId, LeaseRecord, lease_id_eq}
use rules_systemtest.Coordinator.Memory.{State}

-- The lease is on the fixture.
abbrev pub on : FixtureFingerprint → LeaseRecord → Bool
on fp l = l.fingerprint == fp

-- How many leases there are on a fixture.
abbrev pub lease_count : {P : Type 0} → State P → FixtureFingerprint → ℕ
lease_count s fp = Map.count (on fp) s.leases

module _ {P : Type 0} (s : State P) (fp : FixtureFingerprint) (r : FixtureRecord P)
    (id : LeaseId) where
  unfoldable pub add_lease : State P
  add_lease = record {
    fixtures = Map.insert s.fixtures fp r;
    leases = Map.insert s.leases id (record { fingerprint = fp });
  }

  unfoldable pub drop_lease : State P
  drop_lease = record { fixtures = Map.insert s.fixtures fp r; leases = Map.remove s.leases id }

  pub fixtures-add_lease :
      (j : FixtureFingerprint)
      → Map.get add_lease.fixtures j ≡ (if fp == j then some r else Map.get s.fixtures j)
  unfolding add_lease
  fixtures-add_lease j = Map.get-insert s.fixtures fp j r

  pub fixtures-drop_lease :
      (j : FixtureFingerprint)
      → Map.get drop_lease.fixtures j ≡ (if fp == j then some r else Map.get s.fixtures j)
  unfolding drop_lease
  fixtures-drop_lease j = Map.get-insert s.fixtures fp j r

  pub leases-add_lease :
      (j : LeaseId)
      → Map.get add_lease.leases j
        ≡ (if id == j then some (record { fingerprint = fp }) else Map.get s.leases j)
  unfolding add_lease
  leases-add_lease j = Map.get-insert s.leases id j _

  pub leases-drop_lease :
      (j : LeaseId)
      → IsMap s.leases
      → Map.get drop_lease.leases j ≡ (if id == j then none else Map.get s.leases j)
  unfolding drop_lease
  leases-drop_lease j m = Map.get-remove s.leases id j m

  pub lease_count-add_lease :
      (j : FixtureFingerprint)
      → Map.get s.leases id ≡ none
      → lease_count add_lease j ≡ lease_count s j + (if fp == j then 1 else 0)
  unfolding add_lease
  lease_count-add_lease j fresh = Map.count-insert (on j) s.leases id _ fresh

  pub lease_count-drop_lease :
      (j : FixtureFingerprint)
      → Map.get s.leases id ≡ some (record { fingerprint = fp })
      → lease_count s j ≡ lease_count drop_lease j + (if fp == j then 1 else 0)
  unfolding drop_lease
  lease_count-drop_lease j known = Map.count-remove (on j) s.leases id _ known

  pub lease_count-add_self :
      Map.get s.leases id ≡ none → lease_count add_lease fp ≡ lease_count s fp + 1
  lease_count-add_self fresh =
      lease_count-add_lease fp fresh ∙ ap (λ (n : ℕ). lease_count s fp + n) (if_self fp 1 0)

  pub lease_count-drop_self :
      Map.get s.leases id ≡ some (record { fingerprint = fp })
      → lease_count s fp ≡ lease_count drop_lease fp + 1
  lease_count-drop_self known =
      lease_count-drop_lease fp known
      ∙ ap (λ (n : ℕ). lease_count drop_lease fp + n) (if_self fp 1 0)
