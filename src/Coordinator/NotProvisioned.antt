-- ===== src/Coordinator/NotProvisioned.antt =====
-- Why the provision of a fixture in src/coordinator/src/coordinator.rs fails.
use rules_systemtest.Prelude.{String, ◌≡◌, refl, ap, inl, inr}
use rules_systemtest.Result.{Result, ok, err, Error, Status, internal_error}
use rules_systemtest.Io.Inversion.{Result-cases}
use rules_systemtest.Os.{Os}
use rules_systemtest.Proto.{FixtureResult, DescribeResponses}
use rules_systemtest.PluginClient.{spawn, describe, create_fixture}
use rules_systemtest.Coordinator.Memory.{plugin_socket_path, startup_timeout}
use rules_systemtest.Coordinator.TakeLease.{
  Draws, Pending, Process, create, create_request, provision,
}

module _ (os : Os) where
  open os use {World}

  module _ (instance_dir : String) (p : Pending) (draws : Draws) (w : World) where
    abbrev starting : World → Result Error (Process os) × World
    starting =
        spawn os p.path (plugin_socket_path os instance_dir draws.socket)
          (startup_timeout p.desc.startup_timeout_seconds)

    -- The plugin did not start, did not describe itself, or did not create the fixture.
    pub data NotProvisioned (e : Status) : Type 0 where
      not_started :
          (cause : Error) (w₁ : World)
          → starting w ≡ (err cause, w₁)
          → e ≡ internal_error "spawning plugin" cause
          → NotProvisioned e
      not_described :
          (plugin : Process os) (cause : Error) (w₁ w₂ : World)
          → starting w ≡ (ok plugin, w₁)
          → describe os plugin.client w₁ ≡ (err cause, w₂)
          → e ≡ internal_error "DescribePlugin" cause
          → NotProvisioned e
      not_created :
          (plugin : Process os) (described : DescribeResponses) (cause : Error) (w₁ w₂ w₃ : World)
          → starting w ≡ (ok plugin, w₁)
          → describe os plugin.client w₁ ≡ (ok described, w₂)
          → create_fixture os plugin.client (create_request os p draws) w₂ ≡ (err cause, w₃)
          → e ≡ internal_error "CreateFixture" cause
          → NotProvisioned e

    provision_started :
        (plugin : Process os) (w₁ w' : World) (e : Status)
        → starting w ≡ (ok plugin, w₁)
        → provision os instance_dir p draws w ≡ (err e, w')
        → NotProvisioned e
    unfolding provision create
    provision_started plugin w₁ w' e starts h = elim (Result-cases (describe os plugin.client w₁)) [
      | inr (cause, w₂, fails) ↦ not_described plugin cause w₁ w₂ starts fails (
          let run : (provision os instance_dir p draws w).0
              ≡ err (internal_error "DescribePlugin" cause) =
            rw (starts, fails) refl in
          cc (run, ap (λ (x : Result Status (Process os × FixtureResult) × World). x.0) h))
      | inl (described, w₂, describes) ↦
          elim (Result-cases (create_fixture os plugin.client (create_request os p draws) w₂)) [
            | inr (cause, w₃, fails) ↦
                not_created plugin described cause w₁ w₂ w₃ starts describes fails (
                  let run : (provision os instance_dir p draws w).0
                      ≡ err (internal_error "CreateFixture" cause) =
                    rw (starts, describes, fails) refl in
                  cc (run, ap (λ (x : Result Status (Process os × FixtureResult) × World). x.0) h))
            | inl (result, w₃, creates) ↦ absurd (
                let run : (provision os instance_dir p draws w).0 ≡ ok (plugin, result) =
                  rw (starts, describes, creates) refl in
                cc (run, ap (λ (x : Result Status (Process os × FixtureResult) × World). x.0) h))
          ]
    ]

    pub provision-NotProvisioned :
        (w' : World) (e : Status)
        → provision os instance_dir p draws w ≡ (err e, w')
        → NotProvisioned e
    unfolding provision
    provision-NotProvisioned w' e h = elim (Result-cases (starting w)) [
      | inr (cause, w₁, fails) ↦ not_started cause w₁ fails (
          let run : (provision os instance_dir p draws w).0
              ≡ err (internal_error "spawning plugin" cause) =
            rw fails refl in
          cc (run, ap (λ (x : Result Status (Process os × FixtureResult) × World). x.0) h))
      | inl (plugin, w₁, starts) ↦ provision_started plugin w₁ w' e starts h
    ]
