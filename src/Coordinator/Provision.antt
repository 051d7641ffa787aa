-- ===== src/Coordinator/Provision.antt =====
-- What `take_lease` does with a plugin while no lock is held.
use mathlib.Core.Path.{subst₂}
use rules_systemtest.Prelude.{String, ◌≡◌, ap, subst, ◌∙◌, List}
use rules_systemtest.Result.{Result, ok, err, Error, Status, internal_error, map_err}
use rules_systemtest.Io.{Eff, Io, pure, or_status, ◌>>=◌, ◌>>◌, lift, continue}
use rules_systemtest.Io.Inversion.{
  bind-ok, bind_pure-ok, bind_pure-err, or_status-ok, on_error-ok, on_error-err,
}
use rules_systemtest.Os.{Os}
use rules_systemtest.Proto.{CreateRequest, CreateProgress, FixtureResult}
use rules_systemtest.PluginClient.{spawn, describe, create_fixture, drain, drop_plugin}
use rules_systemtest.PluginClient.Drains.{Drains, drain-eq_iff}
use rules_systemtest.Coordinator.Memory.{plugin_socket_path, startup_timeout}
use rules_systemtest.Coordinator.TakeLease.{
  Draws, Pending, Process, create, create_request, provision,
}

module _ (os : Os) where
  open os use {World, Channel}

  create_fixture-ok :
      (client : Channel) (request : CreateRequest) (w w' : World) (result : FixtureResult)
      → create_fixture os client request w ≡ (ok result, w')
      → (stream : List (Result Error CreateProgress)) × (os.create_fixture client request w
          ≡ (ok stream, w'))
        × Drains os stream (ok result)
  unfolding create_fixture
  create_fixture-ok client request w w' result h =
      let (stream, w₁, e, g) =
        bind-ok (os.create_fixture client request) (λ stream. lift (drain os stream)) w h in
      (
        stream,
        e ∙ ap (λ u. (ok stream, u)) (ap (λ t. t.1) g),
        (drain-eq_iff os stream (ok result)).0 (ap (λ t. t.0) g),
      )

  -- The result is what a stream of the plugin decided on, which ended in the world `w'`.
  abbrev pub IsCreatedBy : Channel → CreateRequest → FixtureResult → World → Type 0
  IsCreatedBy client request result w' =
      (w : World) × (stream : List (Result Error CreateProgress)) × (os.create_fixture client
          request w
        ≡ (ok stream, w'))
      × Drains os stream (ok result)

  create-ok :
      (plugin : Process os) (request : CreateRequest) (w w' : World) (result : FixtureResult)
      → create os plugin request w ≡ (ok result, w')
      → IsCreatedBy plugin.client request result w'
  unfolding create
  create-ok plugin request w w' result h =
      let block =
        on_error-ok
          (or_status (describe os plugin.client) (internal_error "DescribePlugin")
            >> or_status (create_fixture os plugin.client request) (internal_error "CreateFixture"))
          (drop_plugin os plugin) w h in
      let (_, w₁, _, g) =
        bind-ok (or_status (describe os plugin.client) (internal_error "DescribePlugin"))
          (λ _.
            or_status (create_fixture os plugin.client request) (internal_error "CreateFixture"))
          w block in
      let c =
        or_status-ok (create_fixture os plugin.client request) (internal_error "CreateFixture") w₁
          g in
      let (stream, e, d) = create_fixture-ok plugin.client request w₁ w' result c in
      (w₁, stream, e, d)

  create-err :
      (plugin : Process os) (request : CreateRequest) (w w' : World) (e : Status)
      → create os plugin request w ≡ (err e, w')
      → (u : World) × (w' ≡ os.start_kill plugin.child u)
  unfolding create drop_plugin
  create-err plugin request w w' e h =
      let block =
        or_status (describe os plugin.client) (internal_error "DescribePlugin")
        >> or_status (create_fixture os plugin.client request) (internal_error "CreateFixture") in
      ((block w).1, (on_error-err block (drop_plugin os plugin) w h).1)

  module _ (instance_dir : String) (p : Pending) (draws : Draws) (w w' : World) where
    -- The parts of `provision`.
    abbrev pub spawn_plugin : Io World (Process os)
    spawn_plugin =
        spawn os p.path (plugin_socket_path os instance_dir draws.socket)
          (startup_timeout p.desc.startup_timeout_seconds)

    abbrev spawning : Eff Status World (Process os)
    spawning = or_status spawn_plugin (internal_error "spawning plugin")

    abbrev creating : Process os → Eff Status World (Process os × FixtureResult)
    creating plugin = do
      result ← create os plugin (create_request os p draws)
      pure (plugin, result)

    -- Provisioning that succeeds returns the plugin that was spawned and the result that the
    -- plugin's stream for the request of this call decided on.
    pub provision-ok :
        (plugin : Process os) (result : FixtureResult)
        → provision os instance_dir p draws w ≡ (ok (plugin, result), w')
        → ((spawn_plugin w).0 ≡ ok plugin)
          × IsCreatedBy plugin.client (create_request os p draws) result w'
    unfolding provision
    provision-ok plugin result h =
        let (pl, w₁, e, g) = bind-ok spawning creating w h in
        let (res, c, q) =
          bind_pure-ok (create os pl (create_request os p draws)) (λ r. (pl, r)) w₁ g in
        let plugins : pl ≡ plugin = ap (λ t. t.0) q in
        let results : res ≡ result = ap (λ t. t.1) q in
        (
          ap (λ t. t.0) (or_status-ok spawn_plugin (internal_error "spawning plugin") w e)
              ∙ ap ok plugins,
          subst₂ (λ x r. IsCreatedBy x.client (create_request os p draws) r w') plugins results
              (create-ok pl (create_request os p draws) w₁ w' res c),
        )

    -- Provisioning that fails after the plugin was spawned ends with the process of the plugin
    -- killed.
    pub provision-err :
        (plugin : Process os) (w₁ : World) (e : Status)
        → spawn_plugin w ≡ (ok plugin, w₁)
        → provision os instance_dir p draws w ≡ (err e, w')
        → (u : World) × (w' ≡ os.start_kill plugin.child u)
    unfolding provision
    provision-err plugin w₁ e s h = create-err plugin (create_request os p draws) w₁ w' e (
        bind_pure-err (create os plugin (create_request os p draws)) (λ r. (plugin, r)) w₁
          (subst
            (λ t.
              continue (map_err (internal_error "spawning plugin") t.0) creating t.1 ≡ (err e, w'))
            s h))
