-- ===== src/Coordinator/Calls/Clients.antt =====
-- The sharing policy along the histories of calls in which no fixture is replaced.
use rules_systemtest.Prelude.{String, ◌≡◌, sym, ap, ◌∙◌, subst, none}
use rules_systemtest.Result.{Result, ok, err, Status}
use rules_systemtest.Map
use rules_systemtest.Map.{Map}
use rules_systemtest.Os.{Os}
use rules_systemtest.Proto.{TakeLeaseRequest, FixtureResult}
use rules_systemtest.Fixture.{Codec, FixtureFingerprint, fingerprint_eq}
use rules_systemtest.Lease
use rules_systemtest.Lease.{LeaseId, LeaseRecord, lease_id_eq}
use rules_systemtest.Coordinator.Memory.{State}
use rules_systemtest.Coordinator.Slots.{register}
use rules_systemtest.Coordinator.TakeLease.{
  Draws, Pending, Process, Begun, replied, provisioning, begin, provision, finish,
}
use rules_systemtest.Coordinator.Leases.{free_slot}
use rules_systemtest.Coordinator.Updates.{add_lease}
use rules_systemtest.Coordinator.Cases.{take_slot, new_record}
use rules_systemtest.Coordinator.Invariant.{IsValid}
use rules_systemtest.Coordinator.Preserved.{Reaches-IsValid}
use rules_systemtest.Coordinator.Accounting.{lease_count-absent}
use rules_systemtest.Coordinator.Release.{release_valid_rule}
use rules_systemtest.Coordinator.Step.{IsFresh}
use rules_systemtest.Coordinator.Calls.{
  Service, note, note_begun, calls, finishes, gives_up, releases, Serves, starts, then,
}
use rules_systemtest.Coordinator.Calls.Begins.{Tells, begin-Tells}
use rules_systemtest.Coordinator.Calls.History.{Serves-Reaches}
use rules_systemtest.Coordinator.Calls.Policy.{
  Admits-MayHold, creator-MayHold, IsHeld, default-IsHeld, add_lease-IsHeld, drop_lease-IsHeld,
}
use rules_systemtest.Coordinator.Calls.Single.{
  Admits-not-IsSingleUse, IsAlone, default-IsAlone, add_lease-IsAlone, drop_lease-IsAlone,
}

module _ {P : Type 0} where
  -- Each lease is held by a client that the policy of its fixture lets hold it, and a fixture for a
  -- single use has at most one.
  pub record IsFair (s : State P) (clients : Map LeaseId String) : Type 0 where
    pub held : IsHeld s clients
    pub alone : IsAlone s

module _ (os : Os) where
  finish-IsFair :
      (p : Pending) (draws : Draws) (s : State (Process os)) (clients : Map LeaseId String)
      (u : os.World) (outcome : Result Status (Process os × FixtureResult))
      → IsFresh s draws
      → Map.get s.fixtures p.fingerprint ≡ none
      → IsValid s
      → IsFair s clients
      → let (reply, t, _) = finish os p draws outcome s u in
        IsFair t (note reply (Lease.random draws.lease) p.client_id clients)
  unfolding finish register add_lease
  finish-IsFair p draws s clients u (err e) fresh new v fair = fair
  finish-IsFair p draws s clients u (ok (plugin, result)) fresh new v fair =
      let r = new_record p.desc p.client_id plugin result in
      record {
        held =
            add_lease-IsHeld s p.fingerprint r (Lease.random draws.lease) clients p.client_id
              (creator-MayHold r.sharing.use_scope p.client_id)
              (λ j l held same. absurd (
                v.routed j l held
                  (ap (λ (k : FixtureFingerprint). Map.get s.fixtures k) (sym same) ∙ new)))
              fair.held;
        alone =
            add_lease-IsAlone s p.fingerprint r (Lease.random draws.lease) fresh
              (λ _. lease_count-absent s p.fingerprint v new) fair.alone;
      }

  module _ (codec : Codec) (req : TakeLeaseRequest) (draws : Draws) (s t : State (Process os))
      (w : os.World) (clients : Map LeaseId String) where
    begun-IsFair :
        (begun : Begun os)
        → Tells os codec req draws s w begun t
        → IsFresh s draws
        → IsFair s clients
        → IsFair t (note_begun os begun (Lease.random draws.lease) req.client_id clients)
    begun-IsFair (replied (err e)) same fresh fair = subst (λ x. IsFair x clients) (sym same) fair
    begun-IsFair (replied (ok response)) shares fresh fair =
        let r = shares.fixture in
        let fp = shares.call.fingerprint in
        subst (λ x. IsFair x (Map.insert clients (Lease.random draws.lease) req.client_id))
          (sym shares.state_lem)
          (record {
            held =
                add_lease-IsHeld s fp (take_slot r) (Lease.random draws.lease) clients req.client_id
                  (Admits-MayHold r.sharing.use_scope r.creating_client_id req.client_id
                    shares.reusable.admitted)
                  (λ j l held same. fair.held j l r held (
                    ap (λ (k : FixtureFingerprint). Map.get s.fixtures k) (sym same)
                    ∙ shares.found))
                  fair.held;
            alone =
                add_lease-IsAlone s fp (take_slot r) (Lease.random draws.lease) fresh
                  (λ u. absurd (
                    Admits-not-IsSingleUse r.sharing.use_scope r.creating_client_id req.client_id
                      shares.reusable.admitted u))
                  fair.alone;
          })
    begun-IsFair (provisioning p) (same, _) fresh fair =
        subst (λ x. IsFair x clients) (sym same) fair

module _ (os : Os) (codec : Codec) (instance_dir : String) where
  -- No call finishes whose fingerprint has a fixture by then.
  abbrev pub ReplacesNone : {s : Service os} → Serves os codec instance_dir s → Type 0
  ReplacesNone starts = Unit {0}
  ReplacesNone (then h (calls req draws w fresh fits)) = ReplacesNone h
  ReplacesNone (then {s} h (finishes before after p draws w u e fresh)) =
      ReplacesNone h × (Map.get s.state.fixtures p.fingerprint ≡ none)
  ReplacesNone (then h (gives_up before after p draws e)) = ReplacesNone h
  ReplacesNone (then h (releases req)) = ReplacesNone h

  -- In each service that calls reach in any order, with fresh lease ids and limits that fit in an
  -- i64, where no call finishes while its fingerprint has a fixture: each lease on a fixture whose
  -- policy is not unrestricted is held by the client for which the fixture was created, and at
  -- most one lease is on a fixture for a single use.
  pub Serves-IsFair :
      {s : Service os} (h : Serves os codec instance_dir s)
      → ReplacesNone h
      → IsFair s.state s.clients
  Serves-IsFair starts n = record { held = default-IsHeld Map.empty; alone = default-IsAlone }
  Serves-IsFair (then {s} h (calls req draws w fresh fits)) n =
      let (begun, t, _) = begin os codec req draws s.state w in
      begun-IsFair os codec req draws s.state t w s.clients begun
        (begin-Tells os codec req draws s.state w) fresh (Serves-IsFair h n)
  Serves-IsFair (then {s} h (finishes before after p draws w u e fresh)) (n, new) =
      finish-IsFair os p draws s.state s.clients u (provision os instance_dir p draws w).0 fresh new
        (Reaches-IsValid os codec (Serves-Reaches os codec instance_dir h)) (Serves-IsFair h n)
  Serves-IsFair (then h (gives_up before after p draws e)) n = Serves-IsFair h n
  Serves-IsFair (then {s} h (releases req)) n =
      let v = Reaches-IsValid os codec (Serves-Reaches os codec instance_dir h) in
      let fair = Serves-IsFair h n in
      release_valid_rule s.state v (λ t. IsFair t s.clients) req (λ _. fair)
        λ l r known found. record {
          held =
              drop_lease-IsHeld s.state l.fingerprint (free_slot r) _ s.clients v
                (λ j m held same.
                  fair.held j m r held (
                    ap (λ (k : FixtureFingerprint). Map.get s.state.fixtures k) (sym same) ∙ found))
                fair.held;
          alone =
              drop_lease-IsAlone s.state l.fingerprint (free_slot r) _ known
                (fair.alone l.fingerprint r found) fair.alone;
        }
