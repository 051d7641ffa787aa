-- ===== src/Coordinator/Granted.antt =====
-- The calls of `take_lease` in src/coordinator/src/coordinator.rs that grant a lease, by what they
-- change.
use rules_systemtest.Prelude.{String, ◌≡◌, refl, Option, none, some, [], ◌∷◌, List}
use rules_systemtest.Result.{Result, ok, Error}
use rules_systemtest.Map
use rules_systemtest.Os.{Os}
use rules_systemtest.Proto.{
  FixtureDescription, binary_path, TakeLeaseRequest, CreateProgress, FixtureResult,
  DescribeResponses,
}
use rules_systemtest.Fixture.{Codec, FixtureFingerprint, FixtureRecord, compute, fingerprint_eq}
use rules_systemtest.Lease
use rules_systemtest.Lease.{LeaseId, lease_id_eq}
use rules_systemtest.Coordinator.Memory.{State}
use rules_systemtest.Coordinator.TakeLease.{Draws, Process, drop_replaced, take_lease}
use rules_systemtest.PluginClient.{drop_plugin}
use rules_systemtest.Coordinator.Invariant.{IsValid}
use rules_systemtest.Coordinator.Grants.{
  Provides, pending_of, take_lease-attaches, take_lease-grants,
}
use rules_systemtest.Coordinator.Effects.{
  reply_of, Allows, Allows-iff, TakesSlot, Registers, attach_lease-TakesSlot, register-Registers,
}

module _ (os : Os) where
  -- The plugin of a record that is replaced is killed, and nothing else is done.
  pub data Drops (old : Option (FixtureRecord (Process os))) (w w' : os.World) : Type 0 where
    killed :
        (r : FixtureRecord (Process os))
        → old ≡ some r
        → w' ≡ os.start_kill r.plugin.child w
        → Drops old w w'
    none_replaced : old ≡ none → w' ≡ w → Drops old w w'

  drop_replaced-Drops :
      (old : Option (FixtureRecord (Process os))) (w : os.World)
      → Drops old w (drop_replaced os old w)
  unfolding drop_plugin
  drop_replaced-Drops none w = none_replaced refl refl
  drop_replaced-Drops (some r) w = killed r refl refl

  module _ (codec : Codec) (instance_dir : String) (draws : Draws)
      (others : State (Process os) → State (Process os)) (req : TakeLeaseRequest)
      (s : State (Process os)) (w : os.World) (d : FixtureDescription) (path : String)
      (fp : FixtureFingerprint) (w₀ : os.World) (described : req.fixture ≡ some d)
      (named : d.plugin ≡ some (binary_path path))
      (computed : compute os codec d path w ≡ (ok fp, w₀)) where
    -- When a local plugin's file can be read and the fixture of a valid state with its fingerprint
    -- allows the client, take_lease grants a lease with the outputs of that fixture, adds one to
    -- its slots in use, puts the lease on it, leaves every other fixture and lease as they were,
    -- and does nothing to the world after the fingerprint is computed.
    pub take_lease-TakesSlot :
        (r : FixtureRecord (Process os))
        → IsValid s
        → Map.get s.fixtures fp ≡ some r
        → Allows r req.client_id
        → (t : State (Process os)) × (take_lease os codec instance_dir draws others req s w ≡ (
          ok (
              reply_of
                (Lease.random draws.lease)
                r.outputs
                ("connecting to existing fixture" ∷ [])),
          t,
          w₀,
        ))
          × TakesSlot s t fp (Lease.random draws.lease) r
    take_lease-TakesSlot r v found allowed =
        let reusable = (Allows-iff r req.client_id).0 allowed in
        (
          _,
          take_lease-attaches os codec instance_dir draws others req s w d path fp w₀ described
              named computed r found reusable,
          attach_lease-TakesSlot s fp (Lease.random draws.lease) r req.client_id v found reusable,
        )

    -- When a local plugin's file can be read, no fixture of the tables with its fingerprint allows
    -- the client, and the plugin starts, describes itself and streams a result, take_lease grants
    -- a lease with the outputs of that result. In the state that other handlers left meanwhile it
    -- stores under the fingerprint a fixture with those outputs, the plugin, the client as its
    -- creator, one slot in use, and the policy of the description, or one lease for the creating
    -- client where there is none; it puts the lease on it and leaves every other fixture and lease
    -- as they were. Then it kills the plugin of a fixture that this replaces, and does nothing
    -- more to the world.
    pub take_lease-Registers :
        (plugin : Process os) (told : DescribeResponses)
        (stream : List (Result Error CreateProgress)) (result : FixtureResult) (w₁ w₂ w₃ : os.World)
        → ((r : FixtureRecord (Process os))
            → Map.get s.fixtures fp ≡ some r
            → ¬ Allows r req.client_id)
        → Provides os instance_dir
            (pending_of req d path fp)
            draws
            plugin
            told
            stream
            result
            w₀
            w₁
            w₂
            w₃
        → (t : State (Process os)) × (w' : os.World) × (take_lease os codec instance_dir draws
              others req s w
            ≡ (ok (reply_of (Lease.random draws.lease) result.outputs []), t, w'))
          × Registers (others s) t fp (Lease.random draws.lease) d req.client_id plugin result
          × Drops (Map.get (others s).fixtures fp) w₃ w'
    take_lease-Registers plugin told stream result w₁ w₂ w₃ none_allowed provides = (
      _,
      _,
      take_lease-grants os codec instance_dir draws others req s w d path fp w₀ described named
          computed plugin told stream result w₁ w₂ w₃
          (λ r found h. none_allowed r found ((Allows-iff r req.client_id).1 h)) provides,
      register-Registers (others s) fp (Lease.random draws.lease) d req.client_id plugin result,
      drop_replaced-Drops (Map.get (others s).fixtures fp) w₃,
    )
