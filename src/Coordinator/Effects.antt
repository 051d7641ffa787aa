-- ===== src/Coordinator/Effects.antt =====
-- What a lease that is granted by `take_lease` in src/coordinator/src/coordinator.rs changes, stated
-- by the lookups in the tables: a slot that is taken, or a fixture that is registered.
use rules_systemtest.Prelude.{
  String, ◌≡◌, ◌≢◌, refl, ap, ◌∙◌, ◌⊎◌, ◌↔◌, Option, none, some, [], ◌∷◌, List, arith, if_self,
  if_ne,
}
use rules_systemtest.Prelude.Int.{pos, ◌<ℤ◌, ◌+ℤ◌}
use rules_systemtest.Map
use rules_systemtest.Proto.{
  Sharing, client_restricted, FixtureDescription, TakeLeaseResponse, BTreeMap, Value, FixtureResult,
  lease_status_number, succeeded,
}
use rules_systemtest.Fixture.{FixtureFingerprint, FixtureRecord, fingerprint_eq}
use rules_systemtest.Lease
use rules_systemtest.Lease.{LeaseId, lease_id_eq}
use rules_systemtest.Coordinator.Memory.{State}
use rules_systemtest.Coordinator.Slots.{attach, attach_lease, register, or_default}
use rules_systemtest.Coordinator.Updates.{
  add_lease, lease_count, fixtures-add_lease, leases-add_lease,
}
use rules_systemtest.Coordinator.Invariant.{IsValid}
use rules_systemtest.Coordinator.Cases.{take_slot, new_record}
use rules_systemtest.Coordinator.Bounds.{add_bounds}
use rules_systemtest.Coordinator.Reuse.{
  IsReusable, Admits, Attaches, missing, refused, attached, attach-Attaches,
}

-- The reply to a call that is granted a lease.
abbrev pub reply_of : LeaseId → BTreeMap String Value → List String → TakeLeaseResponse
reply_of id outputs messages = record {
  status = lease_status_number succeeded;
  lease_id = Lease.into_string id;
  outputs = outputs;
  messages = messages;
}

-- The policy of the description, or the default of the design: one lease, for the creating client.
pub data HasPolicy (stated : Option Sharing) (sharing : Sharing) : Type 0 where
  as_stated : stated ≡ some sharing → HasPolicy stated sharing
  by_default :
      stated ≡ none
      → sharing.maximum_concurrent_connections ≡ pos 1
      → sharing.use_scope ≡ some (client_restricted (record {}))
      → HasPolicy stated sharing

or_default-HasPolicy : (stated : Option Sharing) → HasPolicy stated (or_default stated)
or_default-HasPolicy none = by_default refl refl refl
or_default-HasPolicy (some sharing) = as_stated refl

module _ {P : Type 0} where
  -- The scope admits the client, and no slot is in use or fewer than the policy has.
  pub record Allows (r : FixtureRecord P) (client_id : String) : Type 0 where
    pub admitted : Admits r.sharing.use_scope r.creating_client_id client_id
    pub room : (r.used_slots <ℤ pos 1) ⊎ (r.used_slots <ℤ r.sharing.maximum_concurrent_connections)

  pub Allows-iff :
      (r : FixtureRecord P) (client_id : String) → Allows r client_id ↔ IsReusable r client_id
  Allows-iff r client_id = (
    λ h. record { admitted = h.admitted; free = ground (arith, h.room) },
    λ h. record { admitted = h.admitted; room = ground (arith, h.free) },
  )

  module _ (s t : State P) (fp : FixtureFingerprint) (id : LeaseId) where
    -- All but the fixture and the lease is as it was, and the lease is on the fixture.
    pub record IsLeased : Type 0 where
      pub other_fixtures :
          (j : FixtureFingerprint) → fp ≢ j → Map.get t.fixtures j ≡ Map.get s.fixtures j
      pub lease : Map.get t.leases id ≡ some (record { fingerprint = fp })
      pub other_leases : (j : LeaseId) → id ≢ j → Map.get t.leases j ≡ Map.get s.leases j

    -- One more slot of the fixture is in use, by the lease.
    pub record TakesSlot (r : FixtureRecord P) : Type 0 where
      pub taken : Map.get t.fixtures fp ≡ some (record r { used_slots = r.used_slots +ℤ pos 1 })
      pub leased : IsLeased

    -- A fixture with one slot in use, by the lease, stands under the fingerprint.
    pub record Registers (d : FixtureDescription) (client_id : String) (plugin : P)
        (result : FixtureResult) : Type 0 where
      pub fixture : FixtureRecord P
      pub stored : Map.get t.fixtures fp ≡ some fixture
      pub outputs : fixture.outputs ≡ result.outputs
      pub policy : HasPolicy d.sharing fixture.sharing
      pub creator : fixture.creating_client_id ≡ client_id
      pub one_slot : fixture.used_slots ≡ pos 1
      pub its_plugin : fixture.plugin ≡ plugin
      pub leased : IsLeased

  module _ (s : State P) (fp : FixtureFingerprint) (id : LeaseId) where
    add_lease-IsLeased : (r : FixtureRecord P) → IsLeased s (add_lease s fp r id) fp id
    add_lease-IsLeased r = record {
      other_fixtures = λ j other. fixtures-add_lease s fp r id j ∙ if_ne fp j _ _ other;
      lease = leases-add_lease s fp r id id ∙ if_self id _ (Map.get s.leases id);
      other_leases = λ j other. leases-add_lease s fp r id j ∙ if_ne id j _ _ other;
    }

    stored-add_lease : (r : FixtureRecord P) → Map.get (add_lease s fp r id).fixtures fp ≡ some r
    stored-add_lease r =
        fixtures-add_lease s fp r id fp ∙ if_self fp (some r) (Map.get s.fixtures fp)

    pub attach_lease-TakesSlot :
        (r : FixtureRecord P) (client_id : String)
        → IsValid s
        → Map.get s.fixtures fp ≡ some r
        → IsReusable r client_id
        → TakesSlot s (attach_lease s fp r id).0 fp id r
    unfolding add_lease
    attach_lease-TakesSlot r client_id v found h = record {
      taken =
          stored-add_lease (take_slot r)
          ∙ ap (λ n. some (record r { used_slots = n }))
              (add_bounds (lease_count s fp) r (v.slots fp r found) h.free).0;
      leased = add_lease-IsLeased (take_slot r);
    }

    pub register-Registers :
        (d : FixtureDescription) (client_id : String) (plugin : P) (result : FixtureResult)
        → Registers s (register s fp d client_id plugin result id).0 fp id d client_id plugin result
    unfolding register add_lease
    register-Registers d client_id plugin result = record {
      fixture = new_record d client_id plugin result;
      stored = stored-add_lease (new_record d client_id plugin result);
      outputs = refl;
      policy = or_default-HasPolicy d.sharing;
      creator = refl;
      one_slot = refl;
      its_plugin = refl;
      leased = add_lease-IsLeased (new_record d client_id plugin result);
    }

    -- What the reuse block does, by the fixture with the fingerprint and the rule of the design.
    pub data Reuses (client_id : String) : Option (State P × TakeLeaseResponse) → Type 0 where
      no_fixture : Map.get s.fixtures fp ≡ none → Reuses client_id none
      not_allowed :
          (r : FixtureRecord P)
          → Map.get s.fixtures fp ≡ some r
          → ¬ Allows r client_id
          → Reuses client_id none
      shared :
          (r : FixtureRecord P) (t : State P)
          → Map.get s.fixtures fp ≡ some r
          → Allows r client_id
          → TakesSlot s t fp id r
          → Reuses client_id
              (some (t, reply_of id r.outputs ("connecting to existing fixture" ∷ [])))

    Attaches-Reuses :
        (client_id : String) (o : Option (State P × TakeLeaseResponse))
        → IsValid s
        → Attaches s fp client_id id o
        → Reuses client_id o
    Attaches-Reuses client_id _ v (missing none_found) = no_fixture none_found
    Attaches-Reuses client_id _ v (refused r found h) =
        not_allowed r found λ a. h ((Allows-iff r client_id).0 a)
    Attaches-Reuses client_id _ v (attached r found h) =
        shared r _ found ((Allows-iff r client_id).1 h)
          (attach_lease-TakesSlot r client_id v found h)

    -- In a valid state, the reuse block asks for a new fixture when none has the fingerprint, or
    -- when the one that has it does not allow the client: its scope refuses it, or its slots in
    -- use are neither none nor fewer than its limit. Otherwise it puts the lease on the fixture,
    -- adds one to its slots in use, leaves every other fixture, every other lease and the rest of
    -- the record as they were, and replies with the lease and the outputs of the fixture.
    pub attach-Reuses :
        (client_id : String) → IsValid s → Reuses client_id (attach s fp client_id id)
    attach-Reuses client_id v =
        Attaches-Reuses client_id (attach s fp client_id id) v (attach-Attaches s fp client_id id)
