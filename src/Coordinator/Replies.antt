-- ===== src/Coordinator/Replies.antt =====
-- What a reply of `take_lease` promises about the state that it leaves.
use rules_systemtest.Prelude.{
  String, ◌≡◌, refl, ap, ◌∙◌, subst, ◌⊎◌, inl, inr, Option, none, some, List, [], arith, if_self,
}
use rules_systemtest.Result.{Result, Status, ok, err}
use rules_systemtest.Map
use rules_systemtest.Os.{Os}
use rules_systemtest.Proto.{
  FixtureDescription, TakeLeaseRequest, TakeLeaseResponse, FixtureResult, lease_status_number,
  succeeded,
}
use rules_systemtest.Fixture.{FixtureFingerprint, FixtureRecord, Codec, fingerprint_eq}
use rules_systemtest.Lease
use rules_systemtest.Lease.{LeaseId, LeaseRecord, lease_id_eq}
use rules_systemtest.Coordinator.Memory.{State}
use rules_systemtest.Coordinator.Slots.{granted, register, validate}
use rules_systemtest.Coordinator.TakeLease.{
  Draws, Pending, Process, Begun, replied, provisioning, begin, begin_with, begin_valid,
  reply_or_wait, fingerprint_of, provision, finish, continue_begun, take_lease,
}
use rules_systemtest.Coordinator.Leases.{keepalive, status}
use rules_systemtest.Coordinator.Updates.{add_lease, fixtures-add_lease, leases-add_lease}
use rules_systemtest.Coordinator.Reuse.{Attaches, attached, attach-Attaches}
use rules_systemtest.Coordinator.Cases.{take_slot, new_record}

-- The lease of the response is known, and leads to a fixture with the outputs of the response.
pub record IsGranted {P : Type 0} (t : State P) (resp : TakeLeaseResponse) : Type 0 where
  pub fingerprint : FixtureFingerprint
  pub fixture : FixtureRecord P
  pub leased :
      Map.get t.leases (Lease.from resp.lease_id) ≡ some (record { fingerprint = fingerprint })
  pub stored : Map.get t.fixtures fingerprint ≡ some fixture
  pub outputs : fixture.outputs ≡ resp.outputs
  pub succeeded : resp.status ≡ lease_status_number succeeded

add_lease-IsGranted :
    {P : Type 0} (s : State P) (fp : FixtureFingerprint) (r : FixtureRecord P) (id : LeaseId)
    (messages : List String)
    → IsGranted (add_lease s fp r id) (granted id r.outputs messages)
unfolding Lease.from Lease.into_string
add_lease-IsGranted s fp r id messages = record {
  fingerprint = fp;
  fixture = r;
  leased = leases-add_lease s fp r id id ∙ if_self id (some _) (Map.get s.leases id);
  stored = fixtures-add_lease s fp r id fp ∙ if_self fp (some r) (Map.get s.fixtures fp);
  outputs = refl;
  succeeded = refl;
}

-- A success is granted in the state that it leaves, and a failure leaves the state as it was.
abbrev Answers : {P : Type 0} → State P → Result Status TakeLeaseResponse → State P → Type 0
Answers s (ok resp) t = IsGranted t resp
Answers s (err e) t = t ≡ s

-- The same of the whole call, whose state others may change in between.
abbrev CallAnswers :
    {P : Type 0}
    → (State P → State P)
    → State P
    → Result Status TakeLeaseResponse
    → State P
    → Type 0
CallAnswers others s (ok resp) t = IsGranted t resp
CallAnswers others s (err e) t = (t ≡ s) ⊎ (t ≡ others s)

module _ (os : Os) (s : State (Process os)) where
  abbrev BegunAnswers : Begun os → State (Process os) → Type 0
  BegunAnswers (replied r) t = Answers s r t
  BegunAnswers (provisioning p) t = t ≡ s

  reply_or_wait-Answers :
      (fp : FixtureFingerprint) (client_id : String) (id : LeaseId) (p : Pending)
      (o : Option (State (Process os) × TakeLeaseResponse))
      → Attaches s fp client_id id o
      → BegunAnswers (reply_or_wait os o p s).0 (reply_or_wait os o p s).1
  unfolding add_lease
  reply_or_wait-Answers fp client_id id p none _ = refl
  reply_or_wait-Answers fp client_id id p (some _) (attached r found reusable) =
      add_lease-IsGranted s fp (take_slot r) id _

  begin_with-Answers :
      (req : TakeLeaseRequest) (valid : FixtureDescription × String) (draws : Draws)
      (fp : Result Status FixtureFingerprint)
      → BegunAnswers (begin_with os req valid draws s fp).0 (begin_with os req valid draws s fp).1
  begin_with-Answers req (desc, path) draws (err e) = refl
  begin_with-Answers req (desc, path) draws (ok fp) =
      reply_or_wait-Answers fp _ _ _ _
        (attach-Attaches s fp req.client_id (Lease.random draws.lease))

  finish-Answers :
      (p : Pending) (draws : Draws) (outcome : Result Status (Process os × FixtureResult))
      (w : os.World)
      → Answers s (finish os p draws outcome s w).0 (finish os p draws outcome s w).1
  unfolding finish register add_lease
  finish-Answers p draws (err e) w = refl
  finish-Answers p draws (ok (plugin, result)) w =
      add_lease-IsGranted s p.fingerprint (new_record p.desc p.client_id plugin result) _ _

  begin_valid-Answers :
      (codec : Codec) (req : TakeLeaseRequest) (draws : Draws) (w : os.World)
      (valid : Result Status (FixtureDescription × String))
      → BegunAnswers
          (begin_valid os codec req draws s w valid).0
          (begin_valid os codec req draws s w valid).1
  begin_valid-Answers codec req draws w (err e) = refl
  begin_valid-Answers codec req draws w (ok (desc, path)) =
      begin_with-Answers req (desc, path) draws (fingerprint_of os codec (desc, path) w).0

module _ (os : Os) (others : State (Process os) → State (Process os)) (s : State (Process os)) where
  Answers-CallAnswers :
      (r : Result Status TakeLeaseResponse) (t : State (Process os))
      → Answers (others s) r t
      → CallAnswers others s r t
  Answers-CallAnswers (ok resp) t a = a
  Answers-CallAnswers (err e) t a = inr a

  replied-CallAnswers :
      (r : Result Status TakeLeaseResponse) (t : State (Process os))
      → Answers s r t
      → CallAnswers others s r t
  replied-CallAnswers (ok resp) t a = a
  replied-CallAnswers (err e) t a = inl a

  continue_begun-CallAnswers :
      (instance_dir : String) (draws : Draws) (b : Begun os) (t : State (Process os)) (w : os.World)
      → BegunAnswers os s b t
      → CallAnswers others s
          (continue_begun os instance_dir draws others (b, t, w)).0
          (continue_begun os instance_dir draws others (b, t, w)).1
  continue_begun-CallAnswers instance_dir draws (replied r) t w a = replied-CallAnswers r t a
  continue_begun-CallAnswers instance_dir draws (provisioning p) t w a =
      let (outcome, w') = provision os instance_dir p draws w in
      let same : others t ≡ others s = ap others a in
      Answers-CallAnswers (finish os p draws outcome (others t) w').0
        (finish os p draws outcome (others t) w').1
        (subst
          (λ x.
            Answers x (finish os p draws outcome (others t) w').0
              (finish os p draws outcome (others t) w').1)
          same (finish-Answers os (others t) p draws outcome w'))

  take_lease-CallAnswers :
      (codec : Codec) (instance_dir : String) (draws : Draws) (req : TakeLeaseRequest)
      (w : os.World)
      → CallAnswers others s
          (take_lease os codec instance_dir draws others req s w).0
          (take_lease os codec instance_dir draws others req s w).1
  unfolding take_lease begin
  take_lease-CallAnswers codec instance_dir draws req w =
      let (b, t, w') = begin_valid os codec req draws s w (validate req) in
      continue_begun-CallAnswers instance_dir draws b t w'
        (begin_valid-Answers os s codec req draws w (validate req))

IsGranted-status :
    {P : Type 0} (t : State P) (resp : TakeLeaseResponse)
    → IsGranted t resp
    → (status (record { lease_id = resp.lease_id }) t
        ≡ ok (record { status = resp.status; outputs = resp.outputs; messages = [] }))
      × (keepalive (record { lease_id = resp.lease_id }) t ≡ ok (record {}))
unfolding status keepalive
IsGranted-status t resp g =
    (ground (arith, g.leased, g.stored, g.outputs, g.succeeded), ground (arith, g.leased))

module _ (os : Os) (codec : Codec) (instance_dir : String) (draws : Draws)
    (others : State (Process os) → State (Process os)) (req : TakeLeaseRequest)
    (s t : State (Process os)) (w w' : os.World) where
  -- After a take_lease that grants a lease, whatever other handlers did to the state meanwhile,
  -- status of that lease gives the status and the outputs of the reply, and keepalive succeeds.
  pub take_lease-status :
      (resp : TakeLeaseResponse)
      → take_lease os codec instance_dir draws others req s w ≡ (ok resp, t, w')
      → (status (record { lease_id = resp.lease_id }) t
          ≡ ok (record { status = resp.status; outputs = resp.outputs; messages = [] }))
        × (keepalive (record { lease_id = resp.lease_id }) t ≡ ok (record {}))
  take_lease-status resp e = IsGranted-status t resp (
      subst (λ o. CallAnswers others s o.0 o.1) e
        (take_lease-CallAnswers os others s codec instance_dir draws req w))

  -- A take_lease that fails leaves the tables as it found them, or as other handlers left them.
  pub take_lease-err :
      (e : Status)
      → take_lease os codec instance_dir draws others req s w ≡ (err e, t, w')
      → (t ≡ s) ⊎ (t ≡ others s)
  take_lease-err e h =
      subst (λ o. CallAnswers others s o.0 o.1) h
        (take_lease-CallAnswers os others s codec instance_dir draws req w)
