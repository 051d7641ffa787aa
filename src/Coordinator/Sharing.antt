-- ===== src/Coordinator/Sharing.antt =====
-- Two calls of `take_lease` in src/coordinator/src/coordinator.rs for one fixture.
use rules_systemtest.Prelude.{String, List, ◌≡◌, some, [], ◌∷◌, ap, ◌∙◌, if_self}
use rules_systemtest.Prelude.Int.{pos, ◌<ℤ◌}
use rules_systemtest.Result.{Result, ok, Status, Error}
use rules_systemtest.Map
use rules_systemtest.Os.{Os}
use rules_systemtest.Proto.{
  FixtureDescription, binary_path, TakeLeaseRequest, TakeLeaseResponse, CreateProgress,
  FixtureResult, DescribeResponses,
}
use rules_systemtest.Fixture.{Codec, FixtureFingerprint, FixtureRecord, compute, fingerprint_eq}
use rules_systemtest.Lease
use rules_systemtest.Coordinator.Memory.{State, max_slots}
use rules_systemtest.Coordinator.Slots.{register, granted, or_default}
use rules_systemtest.Coordinator.TakeLease.{Draws, Process, drop_replaced, take_lease}
use rules_systemtest.Coordinator.Cases.{new_record}
use rules_systemtest.Coordinator.Reuse.{IsReusable, Admits}
use rules_systemtest.Coordinator.Grants.{
  Provides, pending_of, take_lease-attaches, take_lease-grants,
}

module _ {P : Type 0} (s : State P) (fp : FixtureFingerprint) (d : FixtureDescription)
    (client_id : String) (plugin : P) (result : FixtureResult) (id : Lease.LeaseId) where
  pub fixtures-register :
      Map.get (register s fp d client_id plugin result id).0.fixtures fp
      ≡ some (new_record d client_id plugin result)
  unfolding register
  fixtures-register =
      Map.get-insert s.fixtures fp fp _ ∙ if_self fp (some _) (Map.get s.fixtures fp)

module _ (os : Os) (codec : Codec) (instance_dir : String) (first second : Draws)
    (others others₂ : State (Process os) → State (Process os)) (req req₂ : TakeLeaseRequest)
    (s : State (Process os)) (w : os.World) where
  -- Two requests for one description whose plugin file does not change between the calls.
  pub record Repeats (d : FixtureDescription) (path : String) (fp : FixtureFingerprint)
      (w₀ w₃ w₄ : os.World) : Type 0 where
    pub described : req.fixture ≡ some d
    pub described_again : req₂.fixture ≡ some d
    pub named : d.plugin ≡ some (binary_path path)
    pub computed : compute os codec d path w ≡ (ok fp, w₀)
    pub computed_again :
        compute os codec d path (drop_replaced os (Map.get (others s).fixtures fp) w₃) ≡ (ok fp, w₄)

  -- One call after the other: both replies and the world that is left.
  unfoldable pub take_twice :
      Result Status TakeLeaseResponse × Result Status TakeLeaseResponse × os.World
  take_twice =
      let (reply, s', w') = take_lease os codec instance_dir first others req s w in
      let (reply₂, _, w₂) = take_lease os codec instance_dir second others₂ req₂ s' w' in
      (reply, reply₂, w₂)

  -- A call of take_lease that provisions a fixture, followed by a call with the same description
  -- while the plugin's file is unchanged, from a client that the sharing policy admits and with
  -- more than one slot: the second call gets the outputs that the first got and starts no plugin.
  pub take_twice-Repeats :
      (d : FixtureDescription) (path : String) (fp : FixtureFingerprint) (plugin : Process os)
      (told : DescribeResponses) (stream : List (Result Error CreateProgress))
      (result : FixtureResult) (w₀ w₁ w₂ w₃ w₄ : os.World)
      → Repeats d path fp w₀ w₃ w₄
      → ((r : FixtureRecord (Process os))
          → Map.get s.fixtures fp ≡ some r
          → ¬ IsReusable r req.client_id)
      → Provides os instance_dir
          (pending_of req d path fp)
          first
          plugin
          told
          stream
          result
          w₀
          w₁
          w₂
          w₃
      → Admits (or_default d.sharing).use_scope req.client_id req₂.client_id
      → pos 1 <ℤ max_slots (or_default d.sharing)
      → take_twice ≡ (
        ok (granted (Lease.random first.lease) result.outputs []),
        ok (
            granted
              (Lease.random second.lease)
              result.outputs
              ("connecting to existing fixture" ∷ [])),
        w₄,
      )
  unfolding take_twice
  take_twice-Repeats d path fp plugin told stream result w₀ w₁ w₂ w₃ w₄ h none_reusable provides
        admitted free =
      ap {A = Result Status TakeLeaseResponse × State (Process os) × os.World}
        (λ t.
          let (reply₂, _, w₂) = take_lease os codec instance_dir second others₂ req₂ t.1 t.2 in
          (t.0, reply₂, w₂))
        (take_lease-grants os codec instance_dir first others req s w d path fp w₀ h.described
          h.named h.computed plugin told stream result w₁ w₂ w₃ none_reusable provides)
      ∙ ap {A = Result Status TakeLeaseResponse × State (Process os) × os.World}
          (λ t. (ok (granted (Lease.random first.lease) result.outputs []), t.0, t.2))
          (take_lease-attaches os codec instance_dir second others₂ req₂
            (register (others s) fp d req.client_id plugin result (Lease.random first.lease)).0
            (drop_replaced os (Map.get (others s).fixtures fp) w₃) d path fp w₄ h.described_again
            h.named h.computed_again (new_record d req.client_id plugin result)
            (fixtures-register (others s) fp d req.client_id plugin result
              (Lease.random first.lease))
            (record { admitted = admitted; free = free }))
