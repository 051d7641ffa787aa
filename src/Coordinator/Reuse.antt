-- ===== src/Coordinator/Reuse.antt =====
-- The reuse rule of the design: which fixtures `take_lease` attaches to, stated apart from the code.
use rules_systemtest.Prelude.{
  String, ◌≡◌, refl, ◌↔◌, ◌⊎◌, inl, inr, true, false, Option, none, some, arith, Bool-cases,
  Option-cases, string_eq,
}
use rules_systemtest.Prelude.Int.{◌<ℤ◌}
use rules_systemtest.Map
use rules_systemtest.Proto.{UseScope, unrestricted, client_restricted, single_use}
use rules_systemtest.Fixture.{FixtureFingerprint, FixtureRecord, fingerprint_eq}
use rules_systemtest.Proto.{TakeLeaseResponse}
use rules_systemtest.Lease.{LeaseId}
use rules_systemtest.Coordinator.Memory.{State, max_slots, scope_admits, sharing_admits}
use rules_systemtest.Coordinator.Slots.{can_attach, attach, attach_lease}

-- Any client; the creating client, which is also the default; no client.
abbrev pub Admits : Option UseScope → String → String → Type 0
Admits (some (unrestricted _)) creator requester = Unit {0}
Admits (some (client_restricted _)) creator requester = creator ≡ requester
Admits none creator requester = creator ≡ requester
Admits (some (single_use _)) creator requester = ⊥

scope_admits_iff :
    (scope : Option UseScope) (creator requester : String)
    → (scope_admits scope creator requester ≡ true) ↔ Admits scope creator requester
unfolding scope_admits
scope_admits_iff (some (unrestricted _)) c d = (λ _. tt, λ _. refl)
scope_admits_iff (some (client_restricted _)) c d = string_eq.beq_iff c d
scope_admits_iff none c d = string_eq.beq_iff c d
scope_admits_iff (some (single_use _)) c d = (λ e. cc, λ e. absurd e)

module _ {P : Type 0} where
  -- The scope admits the client, and a slot is free.
  pub record IsReusable (r : FixtureRecord P) (client_id : String) : Type 0 where
    pub admitted : Admits r.sharing.use_scope r.creating_client_id client_id
    pub free : r.used_slots <ℤ max_slots r.sharing

  can_attach_free :
      (r : FixtureRecord P) (client_id : String)
      → (can_attach r client_id ≡ true) ↔ (
          (sharing_admits r.sharing r.creating_client_id client_id ≡ true)
          × (r.used_slots <ℤ max_slots r.sharing))
  unfolding can_attach
  can_attach_free r client_id = (λ e. ground arith, λ e. ground arith)

  -- The test of the reuse block holds of exactly the fixtures that the rule admits.
  pub can_attach_iff :
      (r : FixtureRecord P) (client_id : String)
      → (can_attach r client_id ≡ true) ↔ IsReusable r client_id
  unfolding sharing_admits
  can_attach_iff r client_id = (
    λ e. record {
      admitted = (admits).0 ((can_attach_free r client_id).0 e).0;
      free = ((can_attach_free r client_id).0 e).1;
    },
    λ h. (can_attach_free r client_id).1 (admits.1 h.admitted, h.free),
  )
    where
      admits :
          (scope_admits r.sharing.use_scope r.creating_client_id client_id ≡ true)
          ↔ Admits r.sharing.use_scope r.creating_client_id client_id
      admits = scope_admits_iff r.sharing.use_scope r.creating_client_id client_id

  module _ (s : State P) (fp : FixtureFingerprint) (client_id : String) (id : LeaseId) where
    pub attach-missing : Map.get s.fixtures fp ≡ none → attach s fp client_id id ≡ none
    unfolding attach
    attach-missing missing = ground arith

    attach-refused :
        (r : FixtureRecord P)
        → Map.get s.fixtures fp ≡ some r
        → can_attach r client_id ≡ false
        → attach s fp client_id id ≡ none
    unfolding attach
    attach-refused r found refused = ground arith

    attach-taken :
        (r : FixtureRecord P)
        → Map.get s.fixtures fp ≡ some r
        → can_attach r client_id ≡ true
        → attach s fp client_id id ≡ some (attach_lease s fp r id)
    unfolding attach
    attach-taken r found taken = ground arith

    -- Whether there is a fixture with the fingerprint, and whether its policy and slots allow it.
    pub data Attaches : Option (State P × TakeLeaseResponse) → Type 0 where
      missing : Map.get s.fixtures fp ≡ none → Attaches none
      refused :
          (r : FixtureRecord P)
          → Map.get s.fixtures fp ≡ some r
          → ¬ IsReusable r client_id
          → Attaches none
      attached :
          (r : FixtureRecord P)
          → Map.get s.fixtures fp ≡ some r
          → IsReusable r client_id
          → Attaches (some (attach_lease s fp r id))

    found_cases :
        (r : FixtureRecord P)
        → Map.get s.fixtures fp ≡ some r
        → (can_attach r client_id ≡ true) ⊎ (can_attach r client_id ≡ false)
        → Attaches (attach s fp client_id id)
    found_cases r found (inl taken) =
        rw (attach-taken r found taken) (attached r found ((can_attach_iff r client_id).0 taken))
    found_cases r found (inr no_room) =
        rw (attach-refused r found no_room)
          (refused r found λ h. cc (no_room, (can_attach_iff r client_id).1 h))

    -- The reuse block asks for a new fixture when none has the fingerprint or when the one that
    -- has it is not reusable for the client (the scope refuses it or no slot is free), and
    -- otherwise takes a slot of it and registers the lease.
    pub attach-Attaches : Attaches (attach s fp client_id id)
    attach-Attaches = elim (Option-cases (Map.get s.fixtures fp)) [
      | inl none_found ↦ rw (attach-missing none_found) (missing none_found)
      | inr (r, found) ↦ found_cases r found (Bool-cases (can_attach r client_id))
    ]

    -- A fixture that the reuse rule admits is attached to.
    pub attach-IsReusable :
        (r : FixtureRecord P)
        → Map.get s.fixtures fp ≡ some r
        → IsReusable r client_id
        → attach s fp client_id id ≡ some (attach_lease s fp r id)
    attach-IsReusable r found h = attach-taken r found ((can_attach_iff r client_id).1 h)

    Attaches-none :
        (o : Option (State P × TakeLeaseResponse))
        → Attaches o
        → ((r : FixtureRecord P) → Map.get s.fixtures fp ≡ some r → ¬ IsReusable r client_id)
        → o ≡ none
    Attaches-none _ (missing _) _ = refl
    Attaches-none _ (refused r _ _) _ = refl
    Attaches-none _ (attached r found h) none_reusable = absurd (none_reusable r found h)

    -- With no fixture that the reuse rule admits, a new one is asked for.
    pub attach-none :
        ((r : FixtureRecord P) → Map.get s.fixtures fp ≡ some r → ¬ IsReusable r client_id)
        → attach s fp client_id id ≡ none
    attach-none = Attaches-none (attach s fp client_id id) attach-Attaches
