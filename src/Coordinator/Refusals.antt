-- ===== src/Coordinator/Refusals.antt =====
-- The requests that `take_lease` refuses before it looks at any fixture.
use Prim.Native.String.{◌++◌}
use rules_systemtest.Prelude.{String, ◌≡◌, ap, ◌∙◌, none, some, ◌∷◌, arith}
use rules_systemtest.Result.{
  Result, ok, err, Status, Error, invalid_argument, unimplemented, internal_error, map_err,
}
use rules_systemtest.Os.{Os}
use rules_systemtest.Proto.{FixtureDescription, binary_path, container_ref, TakeLeaseRequest}
use rules_systemtest.Fixture.{Codec, FixtureFingerprint}
use rules_systemtest.Fixture.Identity.{compute_unreadable}
use rules_systemtest.Coordinator.Memory.{State}
use rules_systemtest.Coordinator.Slots.{validate}
use rules_systemtest.Coordinator.TakeLease.{
  Draws, Process, begin, begin_valid, begin_with, continue_begun, take_lease,
}

-- Why a request is refused.
pub data Refuses (req : TakeLeaseRequest) : Status → Type 0 where
  no_fixture : req.fixture ≡ none → Refuses req (invalid_argument "fixture description is required")
  no_plugin :
      (d : FixtureDescription)
      → req.fixture ≡ some d
      → d.plugin ≡ none
      → Refuses req (invalid_argument "fixture.plugin is required")
  remote_plugin :
      (d : FixtureDescription) (reference : String)
      → req.fixture ≡ some d
      → d.plugin ≡ some (container_ref reference)
      → Refuses req (
          unimplemented
            "remote-mode (container_ref) plugins are not supported by this scaffold coordinator")

pub Refuses-validate : (req : TakeLeaseRequest) (e : Status) → Refuses req e → validate req ≡ err e
unfolding validate
Refuses-validate req _ (no_fixture f) = ground arith
Refuses-validate req _ (no_plugin d f n) = ground arith
Refuses-validate req _ (remote_plugin d reference f n) = ground arith

-- A request is refused, or it names a local plugin.
pub validate-local :
    (req : TakeLeaseRequest) (d : FixtureDescription) (path : String)
    → req.fixture ≡ some d
    → d.plugin ≡ some (binary_path path)
    → validate req ≡ ok (d, path)
unfolding validate
validate-local req d path f n = ground arith

-- A request that is not refused names a local plugin.
pub validate-ok :
    (req : TakeLeaseRequest) (d : FixtureDescription) (path : String)
    → validate req ≡ ok (d, path)
    → (req.fixture ≡ some d) × (d.plugin ≡ some (binary_path path))
unfolding validate
validate-ok req d path e = ground arith

module _ (os : Os) (codec : Codec) (instance_dir : String) (draws : Draws)
    (others : State (Process os) → State (Process os)) (req : TakeLeaseRequest)
    (s : State (Process os)) (w : os.World) where
  -- A request with no description, with no plugin or with a remote plugin is refused with its
  -- status, and the tables and the world are left alone.
  pub take_lease-Refuses :
      (e : Status)
      → Refuses req e
      → take_lease os codec instance_dir draws others req s w ≡ (err e, s, w)
  unfolding take_lease begin
  take_lease-Refuses e h =
      ap (λ v. continue_begun os instance_dir draws others (begin_valid os codec req draws s w v))
        (Refuses-validate req e h)

  -- A request whose local plugin file cannot be read is refused with an internal error that names
  -- the file, and the tables are left alone.
  pub take_lease_unreadable :
      (d : FixtureDescription) (path : String) (e : Error) (w' : os.World)
      → req.fixture ≡ some d
      → d.plugin ≡ some (binary_path path)
      → os.read path w ≡ (err e, w')
      → take_lease os codec instance_dir draws others req s w ≡ (
        err (internal_error "computing fingerprint" (("reading plugin binary at " ++ path) ∷ e)),
        s,
        w',
      )
  unfolding take_lease begin
  take_lease_unreadable d path e w' f n unreadable =
      ap (λ v. continue_begun os instance_dir draws others (begin_valid os codec req draws s w v))
        (validate-local req d path f n)
      ∙ ap {A = Result Status FixtureFingerprint × os.World}
          (λ t.
            continue_begun os instance_dir draws others
              (let (b, s') = begin_with os req (d, path) draws s t.0 in (b, s', t.1)))
          (ap {A = Result Error FixtureFingerprint × os.World}
            (λ t. (map_err (internal_error "computing fingerprint") t.0, t.1))
            (compute_unreadable os codec d path path e w w' n unreadable))
