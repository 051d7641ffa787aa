-- ===== src/Coordinator/Grants.antt =====
-- The calls of `take_lease` in src/coordinator/src/coordinator.rs that grant a lease.
use rules_systemtest.Prelude.{String, List, ◌≡◌, refl, ap, ◌∙◌, some, none, [], ◌∷◌, Option}
use rules_systemtest.Result.{Result, ok, Status, Error, internal_error, map_err}
use rules_systemtest.Map
use rules_systemtest.Os.{Os}
use rules_systemtest.Proto.{
  FixtureDescription, binary_path, TakeLeaseRequest, TakeLeaseResponse, CreateProgress,
  FixtureResult, DescribeResponses,
}
use rules_systemtest.Fixture.{Codec, FixtureFingerprint, FixtureRecord, compute, fingerprint_eq}
use rules_systemtest.Lease
use rules_systemtest.PluginClient.{spawn, describe, create_fixture}
use rules_systemtest.PluginClient.Drains.{Drains, drain-eq_iff}
use rules_systemtest.Coordinator.Memory.{State, plugin_socket_path, startup_timeout}
use rules_systemtest.Coordinator.Slots.{attach, attach_lease, register, granted}
use rules_systemtest.Coordinator.TakeLease.{
  Draws, Pending, Process, begin, begin_valid, begin_with, reply_or_wait, continue_begun, create,
  create_request, provision, finish, drop_replaced, take_lease,
}
use rules_systemtest.Coordinator.Reuse.{IsReusable, attach-IsReusable, attach-none}
use rules_systemtest.Coordinator.Refusals.{validate-local}

module _ (os : Os) (instance_dir : String) (p : Pending) (draws : Draws) (plugin : Process os)
    (described : DescribeResponses) (stream : List (Result Error CreateProgress))
    (result : FixtureResult) (w w₁ w₂ w₃ : os.World) where
  -- A plugin that starts, connects, describes itself and streams a result.
  pub record Provides : Type 0 where
    pub starts :
        spawn os p.path
          (plugin_socket_path os instance_dir draws.socket)
          (startup_timeout p.desc.startup_timeout_seconds)
          w
        ≡ (ok plugin, w₁)
    pub describes : os.describe_plugin plugin.client w₁ ≡ (ok described, w₂)
    pub streams : os.create_fixture plugin.client (create_request os p draws) w₂ ≡ (ok stream, w₃)
    pub drains : Drains os stream (ok result)

  provision-Provides : Provides → provision os instance_dir p draws w ≡ (ok (plugin, result), w₃)
  unfolding provision create describe create_fixture
  provision-Provides h =
      rw (h.starts, h.describes, h.streams, (drain-eq_iff os stream (ok result)).1 h.drains) refl

-- A request for a local plugin whose file was read, as a call that waits for it.
abbrev pub pending_of :
    TakeLeaseRequest → FixtureDescription → String → FixtureFingerprint → Pending
pending_of req d path fp = record {
  desc = d;
  path = path;
  fingerprint = fp;
  client_id = req.client_id;
  owner = req.owner;
}

module _ (os : Os) (codec : Codec) (instance_dir : String) (draws : Draws)
    (others : State (Process os) → State (Process os)) (req : TakeLeaseRequest)
    (s : State (Process os)) (w : os.World) where
  module _ (d : FixtureDescription) (path : String) (fp : FixtureFingerprint) (w₀ : os.World)
      (described : req.fixture ≡ some d) (named : d.plugin ≡ some (binary_path path))
      (computed : compute os codec d path w ≡ (ok fp, w₀)) where
    -- The call goes on as the reuse block of its fingerprint says.
    take_lease_begun :
        (o : Option (State (Process os) × TakeLeaseResponse))
        → attach s fp req.client_id (Lease.random draws.lease) ≡ o
        → take_lease os codec instance_dir draws others req s w
          ≡ continue_begun os instance_dir draws others
              (let (b, s') = reply_or_wait os o (pending_of req d path fp) s in (b, s', w₀))
    unfolding take_lease begin
    take_lease_begun o attaches =
        ap (λ v. continue_begun os instance_dir draws others (begin_valid os codec req draws s w v))
          (validate-local req d path described named)
        ∙ ap {A = Result Error FixtureFingerprint × os.World}
            (λ t. continue_begun os instance_dir draws others (
              let (b, s') =
                begin_with os req (d, path) draws s
                  (map_err (internal_error "computing fingerprint") t.0) in
              (b, s', t.1)))
            computed
        ∙ ap
            (λ o.
              continue_begun os instance_dir draws others
                (let (b, s') = reply_or_wait os o (pending_of req d path fp) s in (b, s', w₀)))
            attaches

    -- When a local plugin's file can be read and the reuse rule admits the fixture of the tables
    -- with its fingerprint, take_lease grants a lease with the outputs of that fixture, takes one
    -- more of its slots, and does nothing to the world after the fingerprint is computed.
    pub take_lease-attaches :
        (r : FixtureRecord (Process os))
        → Map.get s.fixtures fp ≡ some r
        → IsReusable r req.client_id
        → take_lease os codec instance_dir draws others req s w ≡ (
          ok (granted (Lease.random draws.lease) r.outputs ("connecting to existing fixture" ∷ [])),
          (attach_lease s fp r (Lease.random draws.lease)).0,
          w₀,
        )
    take_lease-attaches r found reusable =
        take_lease_begun (some (attach_lease s fp r (Lease.random draws.lease)))
          (attach-IsReusable s fp req.client_id (Lease.random draws.lease) r found reusable)

    -- When a local plugin's file can be read, the reuse rule admits no fixture of the tables with
    -- its fingerprint, and the plugin starts, describes itself and streams a result, take_lease
    -- grants a lease with the outputs of that result, registers the fixture in the state that
    -- other handlers left meanwhile, and drops the plugin of a record that this replaces.
    pub take_lease-grants :
        (plugin : Process os) (described : DescribeResponses)
        (stream : List (Result Error CreateProgress)) (result : FixtureResult) (w₁ w₂ w₃ : os.World)
        → ((r : FixtureRecord (Process os))
            → Map.get s.fixtures fp ≡ some r
            → ¬ IsReusable r req.client_id)
        → Provides os instance_dir
            (pending_of req d path fp)
            draws
            plugin
            described
            stream
            result
            w₀
            w₁
            w₂
            w₃
        → take_lease os codec instance_dir draws others req s w ≡ (
          ok (granted (Lease.random draws.lease) result.outputs []),
          (register (others s) fp d req.client_id plugin result (Lease.random draws.lease)).0,
          drop_replaced os (Map.get (others s).fixtures fp) w₃,
        )
    unfolding finish register
    take_lease-grants plugin told stream result w₁ w₂ w₃ none_reusable provides =
        take_lease_begun none
          (attach-none s fp req.client_id (Lease.random draws.lease) none_reusable)
        ∙ ap {A = Result Status (Process os × FixtureResult) × os.World}
            (λ t. finish os (pending_of req d path fp) draws t.0 (others s) t.1)
            (provision-Provides os instance_dir (pending_of req d path fp) draws plugin told stream
              result w₀ w₁ w₂ w₃ provides)
