-- ===== src/Coordinator/Processes.antt =====
-- What becomes of the plugin process that a call of `take_lease` in src/coordinator/src/coordinator.rs
-- has started.
use rules_systemtest.Prelude.{String, ◌≡◌, refl, sym, ap, subst, some}
use rules_systemtest.Result.{Result, ok, err, Error, Status}
use rules_systemtest.Map
use rules_systemtest.Os.{Os}
use rules_systemtest.Proto.{TakeLeaseRequest, TakeLeaseResponse, FixtureResult}
use rules_systemtest.Fixture.{Codec, FixtureRecord, fingerprint_eq}
use rules_systemtest.PluginClient.{spawn}
use rules_systemtest.Coordinator.Memory.{State, plugin_socket_path, startup_timeout}
use rules_systemtest.Coordinator.TakeLease.{
  Draws, Pending, Process, provisioning, begin, provision, finish, continue_begun, take_lease,
}
use rules_systemtest.Coordinator.Cases.{new_record}
use rules_systemtest.Coordinator.Provision.{provision-ok, provision-err}
use rules_systemtest.Coordinator.Replaced.{fixtures-finish}

module _ (os : Os) where
  open os use {World}

  abbrev pub Outcome : Type 0
  Outcome = Result Status TakeLeaseResponse × State (Process os) × World

  module _ (p : Pending) (plugin : Process os) where
    -- The table has the plugin under the call's fingerprint, or the last that was done to the world
    -- is that the plugin's process was killed.
    pub data IsKept (t : State (Process os)) (out : Outcome) : Type 0 where
      stored :
          (response : TakeLeaseResponse) (r : FixtureRecord (Process os))
          → out.0 ≡ ok response
          → Map.get out.1.fixtures p.fingerprint ≡ some r
          → r.plugin ≡ plugin
          → IsKept t out
      killed :
          (e : Status) (u : World) → out ≡ (err e, t, os.start_kill plugin.child u) → IsKept t out

    finish-IsKept :
        (instance_dir : String) (draws : Draws) (t : State (Process os)) (w w₁ w₂ : World)
        (outcome : Result Status (Process os × FixtureResult))
        → spawn os p.path
            (plugin_socket_path os instance_dir draws.socket)
            (startup_timeout p.desc.startup_timeout_seconds)
            w
          ≡ (ok plugin, w₁)
        → provision os instance_dir p draws w ≡ (outcome, w₂)
        → IsKept t (finish os p draws outcome t w₂)
    unfolding finish
    finish-IsKept instance_dir draws t w w₁ w₂ (err e) starts done =
        let (u, last) = provision-err os instance_dir p draws w w₂ plugin w₁ e starts done in
        killed e u (ap {B = Outcome} (λ x. (err e, t, x)) last)
    finish-IsKept instance_dir draws t w w₁ w₂ (ok (started, result)) starts done =
        let (same, _) = provision-ok os instance_dir p draws w w₂ started result done in
        stored _ (new_record p.desc p.client_id started result) refl
          (fixtures-finish os t p draws started result w₂)
          (cc (same, ap (λ (x : Result Error (Process os) × World). x.0) starts))

  -- A take_lease that waits and starts its plugin leaves the plugin in the table under its
  -- fingerprint when it succeeds, and when it fails it leaves the state that other handlers left,
  -- and the last that it does is to kill the plugin's process.
  pub take_lease-IsKept :
      (codec : Codec) (instance_dir : String) (draws : Draws)
      (others : State (Process os) → State (Process os)) (req : TakeLeaseRequest)
      (s t : State (Process os)) (p : Pending) (plugin : Process os) (w w₀ w₁ : World)
      → begin os codec req draws s w ≡ (provisioning p, t, w₀)
      → spawn os p.path
          (plugin_socket_path os instance_dir draws.socket)
          (startup_timeout p.desc.startup_timeout_seconds)
          w₀
        ≡ (ok plugin, w₁)
      → IsKept p plugin (others t) (take_lease os codec instance_dir draws others req s w)
  unfolding take_lease
  take_lease-IsKept codec instance_dir draws others req s t p plugin w w₀ w₁ waits starts =
      subst (λ b. IsKept p plugin (others t) (continue_begun os instance_dir draws others b))
        (sym waits)
        (finish-IsKept p plugin instance_dir draws (others t) w₀ w₁
          (provision os instance_dir p draws w₀).1 (provision os instance_dir p draws w₀).0 starts
          refl)
