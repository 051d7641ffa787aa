-- ===== src/Coordinator/Calls/Begins.antt =====
-- What the first part of `take_lease` in src/coordinator/src/coordinator.rs has found out when it
-- replies, and when it waits.
use rules_systemtest.Prelude.{String, ◌≡◌, refl, [], ◌∷◌, Option, none, some}
use rules_systemtest.Result.{Result, ok, err, Error, Status, internal_error, map_err}
use rules_systemtest.Map
use rules_systemtest.Os.{Os}
use rules_systemtest.Proto.{FixtureDescription, TakeLeaseRequest, TakeLeaseResponse, binary_path}
use rules_systemtest.Fixture.{Codec, FixtureFingerprint, FixtureRecord, compute, fingerprint_eq}
use rules_systemtest.Lease
use rules_systemtest.Coordinator.Memory.{State}
use rules_systemtest.Coordinator.Slots.{validate, granted}
use rules_systemtest.Coordinator.TakeLease.{
  Draws, Pending, Process, Begun, replied, provisioning, begin, begin_valid, begin_with,
  reply_or_wait,
}
use rules_systemtest.Coordinator.Updates.{add_lease}
use rules_systemtest.Coordinator.Cases.{take_slot}
use rules_systemtest.Coordinator.Reuse.{IsReusable, Attaches, attached, attach-Attaches}
use rules_systemtest.Coordinator.Refusals.{validate-ok}
use rules_systemtest.Coordinator.Grants.{pending_of}

module _ (os : Os) (codec : Codec) where
  open os use {World}

  -- The fingerprint of the call is that of its description, as its plugin's file was read.
  pub record IsComputed (p : Pending) : Type 0 where
    pub named : p.desc.plugin ≡ some (binary_path p.path)
    pub before : World
    pub after : World
    pub computed : compute os codec p.desc p.path before ≡ (ok p.fingerprint, after)

  module _ (req : TakeLeaseRequest) (draws : Draws) (s : State (Process os)) (w : World) where
    -- The call is that of the request, with the fingerprint that it has in the world `w`.
    pub record Asks (p : Pending) : Type 0 where
      pub described : req.fixture ≡ some p.desc
      pub client : p.client_id ≡ req.client_id
      pub fingerprinted : IsComputed p
      pub now : fingerprinted.before ≡ w

    -- The response is that of a fixture with the call's fingerprint that its client may use.
    pub record Shares (response : TakeLeaseResponse) (t : State (Process os)) : Type 0 where
      pub call : Pending
      pub asked : Asks call
      pub fixture : FixtureRecord (Process os)
      pub found : Map.get s.fixtures call.fingerprint ≡ some fixture
      pub reusable : IsReusable fixture req.client_id
      pub response_lem :
          response
          ≡ granted
              (Lease.random draws.lease)
              fixture.outputs
              ("connecting to existing fixture" ∷ [])
      pub state_lem :
          t ≡ add_lease s call.fingerprint (take_slot fixture) (Lease.random draws.lease)

    -- A refusal leaves the state, a lease is on a fixture that is shared, and a call that waits is
    -- that of the request.
    abbrev pub Tells : Begun os → State (Process os) → Type 0
    Tells (replied (err e)) t = t ≡ s
    Tells (replied (ok response)) t = Shares response t
    Tells (provisioning p) t = (t ≡ s) × Asks p

    reply_or_wait-Tells :
        (p : Pending) (o : Option (State (Process os) × TakeLeaseResponse))
        → Asks p
        → Attaches s p.fingerprint req.client_id (Lease.random draws.lease) o
        → Tells (reply_or_wait os o p s).0 (reply_or_wait os o p s).1
    unfolding add_lease
    reply_or_wait-Tells p none asks _ = (refl, asks)
    reply_or_wait-Tells p (some _) asks (attached r found reusable) = record {
      call = p;
      asked = asks;
      fixture = r;
      found = found;
      reusable = reusable;
      response_lem = refl;
      state_lem = refl;
    }

    begin_with-Tells :
        (d : FixtureDescription) (path : String) (w' : World) (r : Result Error FixtureFingerprint)
        → req.fixture ≡ some d
        → d.plugin ≡ some (binary_path path)
        → compute os codec d path w ≡ (r, w')
        → let (begun, t) =
            begin_with os req
              (d, path)
              draws
              s
              (map_err (internal_error "computing fingerprint") r) in
          Tells begun t
    begin_with-Tells d path w' (err e) described named computed = refl
    begin_with-Tells d path w' (ok fp) described named computed =
        reply_or_wait-Tells (pending_of req d path fp) _
          (record {
            described = described;
            client = refl;
            fingerprinted = record { named = named; before = w; after = w'; computed = computed };
            now = refl;
          })
          (attach-Attaches s fp req.client_id (Lease.random draws.lease))

    begin_valid-Tells :
        (v : Result Status (FixtureDescription × String))
        → validate req ≡ v
        → let (begun, t, _) = begin_valid os codec req draws s w v in Tells begun t
    begin_valid-Tells (err e) valid = refl
    begin_valid-Tells (ok (d, path)) valid =
        let (described, named) = validate-ok req d path valid in
        let (r, w') = compute os codec d path w in begin_with-Tells d path w' r described named refl

    -- What the first part of a call tells of its reply, or of the call that waits.
    pub begin-Tells : let (begun, t, _) = begin os codec req draws s w in Tells begun t
    unfolding begin
    begin-Tells = begin_valid-Tells (validate req) refl
