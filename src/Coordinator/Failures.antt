-- ===== src/Coordinator/Failures.antt =====
-- The errors of `take_lease` in src/coordinator/src/coordinator.rs: each with its cause.
use rules_systemtest.Prelude.{
  String, ◌≡◌, refl, ap, subst, ◌⊎◌, inl, inr, Option, none, some, Option-cases,
}
use rules_systemtest.Result.{Result, ok, err, Error, Status, internal_error, map_err}
use rules_systemtest.Os.{Os}
use rules_systemtest.Proto.{
  FixtureDescription, FixturePlugin, binary_path, container_ref, TakeLeaseRequest,
  TakeLeaseResponse, FixtureResult,
}
use rules_systemtest.Fixture.{Codec, FixtureFingerprint, compute}
use rules_systemtest.Lease
use rules_systemtest.Coordinator.Memory.{State}
use rules_systemtest.Coordinator.Slots.{validate, register}
use rules_systemtest.Coordinator.TakeLease.{
  Draws, Pending, Process, Begun, begin, begin_valid, begin_with, reply_or_wait, provision, finish,
  continue_begun, take_lease,
}
use rules_systemtest.Coordinator.Refusals.{
  Refuses, no_fixture, no_plugin, remote_plugin, Refuses-validate, validate-local, validate-ok,
}
use rules_systemtest.Coordinator.Slots.{attach}
use rules_systemtest.Coordinator.Grants.{pending_of}
use rules_systemtest.Coordinator.NotProvisioned.{NotProvisioned, provision-NotProvisioned}

-- No plugin, a local one, or a remote one.
Plugin-cases :
    (o : Option FixturePlugin)
    → (o ≡ none)
      ⊎ (((path : String) × (o ≡ some (binary_path path)))
          ⊎ ((reference : String) × (o ≡ some (container_ref reference))))
Plugin-cases none = inl refl
Plugin-cases (some (binary_path path)) = inr (inl (path, refl))
Plugin-cases (some (container_ref reference)) = inr (inr (reference, refl))

module _ (req : TakeLeaseRequest) (e : Status) (h : validate req ≡ err e) where
  refused-as : (e' : Status) → Refuses req e' → Refuses req e
  refused-as e' r =
      let same : e' ≡ e = cc (Refuses-validate req e' r, h) in subst (Refuses req) same r

  validate-Refuses : Refuses req e
  validate-Refuses = elim (Option-cases req.fixture) [
    | inl missing ↦ refused-as _ (no_fixture missing)
    | inr (d, described) ↦ elim (Plugin-cases d.plugin) [
      | inl missing ↦ refused-as _ (no_plugin d described missing)
      | inr (inl (path, named)) ↦ absurd (cc (validate-local req d path described named, h))
      | inr (inr (reference, named)) ↦ refused-as _ (remote_plugin d reference described named)
    ]
  ]

module _ (os : Os) where
  open os use {World}

  module _ (codec : Codec) (instance_dir : String) (draws : Draws) (req : TakeLeaseRequest)
      (w : World) where
    -- The request is refused, its plugin's file cannot be read, or its plugin does not provision it.
    pub data Fails (e : Status) : Type 0 where
      refused : Refuses req e → Fails e
      no_fingerprint :
          (d : FixtureDescription) (path : String) (cause : Error) (w₁ : World)
          → req.fixture ≡ some d
          → d.plugin ≡ some (binary_path path)
          → compute os codec d path w ≡ (err cause, w₁)
          → e ≡ internal_error "computing fingerprint" cause
          → Fails e
      not_provisioned :
          (d : FixtureDescription) (path : String) (fp : FixtureFingerprint) (w₁ : World)
          → req.fixture ≡ some d
          → d.plugin ≡ some (binary_path path)
          → compute os codec d path w ≡ (ok fp, w₁)
          → NotProvisioned os instance_dir (pending_of req d path fp) draws w₁ e
          → Fails e

    module _ (others : State (Process os) → State (Process os)) (s : State (Process os))
        (e : Status) where
      -- The reply to a call, once its first part is over.
      abbrev reply : Begun os × State (Process os) × World → Result Status TakeLeaseResponse
      reply b = (continue_begun os instance_dir draws others b).0

      finish-err :
          (p : Pending) (outcome : Result Status (Process os × FixtureResult))
          (t : State (Process os)) (u : World)
          → (finish os p draws outcome t u).0 ≡ err e
          → outcome ≡ err e
      unfolding finish register
      finish-err p (err e') t u h = cc h
      finish-err p (ok (plugin, result)) t u h = absurd (cc h)

      module _ (d : FixtureDescription) (path : String) (described : req.fixture ≡ some d)
          (named : d.plugin ≡ some (binary_path path)) where
        waiting-Fails :
            (fp : FixtureFingerprint) (w₁ : World)
            (o : Option (State (Process os) × TakeLeaseResponse))
            → compute os codec d path w ≡ (ok fp, w₁)
            → reply (let (b, t) = reply_or_wait os o (pending_of req d path fp) s in (b, t, w₁))
              ≡ err e
            → Fails e
        waiting-Fails fp w₁ (some _) computed h = absurd (cc h)
        waiting-Fails fp w₁ none computed h =
            let p = pending_of req d path fp in
            let (outcome, w₂) = provision os instance_dir p draws w₁ in
            not_provisioned d path fp w₁ described named computed (
              provision-NotProvisioned os instance_dir p draws w₁ w₂ e (
                ap {B = Result Status (Process os × FixtureResult) × World} (λ r. (r, w₂))
                  (finish-err p outcome (others s) w₂ h)))

        fingerprinted-Fails :
            (r : Result Error FixtureFingerprint) (w₁ : World)
            → compute os codec d path w ≡ (r, w₁)
            → reply (
                let (b, t) =
                  begin_with os req
                    (d, path)
                    draws
                    s
                    (map_err (internal_error "computing fingerprint") r) in
                (b, t, w₁))
              ≡ err e
            → Fails e
        fingerprinted-Fails (err cause) w₁ computed h =
            no_fingerprint d path cause w₁ described named computed (cc h)
        fingerprinted-Fails (ok fp) w₁ computed h =
            waiting-Fails fp w₁ (attach s fp req.client_id (Lease.random draws.lease)) computed h

      valid-Fails :
          (v : Result Status (FixtureDescription × String))
          → validate req ≡ v
          → reply (begin_valid os codec req draws s w v) ≡ err e
          → Fails e
      valid-Fails (err e') valid h =
          let same : e' ≡ e = cc h in
          refused (subst (Refuses req) same (validate-Refuses req e' valid))
      valid-Fails (ok (d, path)) valid h =
          let (described, named) = validate-ok req d path valid in
          let (r, w₁) = compute os codec d path w in
          fingerprinted-Fails d path described named r w₁ refl h

      -- Each error of take_lease has one of these causes, and a status that names it: the request
      -- is refused (no description, no plugin, a remote plugin); or its plugin's file gives no
      -- fingerprint; or, the fingerprint computed, its plugin does not start, or starts and does
      -- not describe itself, or describes itself and does not create the fixture - each an
      -- internal status with the error of that stage.
      pub take_lease-Fails :
          (t : State (Process os)) (w' : World)
          → take_lease os codec instance_dir draws others req s w ≡ (err e, t, w')
          → Fails e
      unfolding take_lease begin
      take_lease-Fails t w' h =
          valid-Fails (validate req) refl
            (ap {A = Result Status TakeLeaseResponse × State (Process os) × World} (λ x. x.0) h)
