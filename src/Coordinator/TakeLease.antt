-- ===== src/Coordinator/TakeLease.antt =====
-- `take_lease`, in the parts between its locks: `begin` validates, fingerprints and tries to
-- attach under the first lock, `provision` talks to a plugin with no lock held, and `finish`
-- registers the fixture under the second lock. Other handlers may run between the parts.
use rules_systemtest.Prelude.{String, Option, none, some, []}
use rules_systemtest.Result.{Result, ok, err, Status, internal_error}
use rules_systemtest.Map
use rules_systemtest.Io
use rules_systemtest.Io.{Eff, or_status, on_error, ◌>>=◌, ◌>>◌}
use rules_systemtest.Os.{Os}
use rules_systemtest.Proto.{
  FixtureDescription, TakeLeaseRequest, TakeLeaseResponse, CreateRequest, FixtureResult,
}
use rules_systemtest.Fixture.{FixtureFingerprint, FixtureRecord, Codec, compute, fingerprint_eq}
use rules_systemtest.Fixture
use rules_systemtest.Lease
use rules_systemtest.PluginClient.{PluginProcess, spawn, describe, create_fixture, drop_plugin}
use rules_systemtest.Coordinator.Memory.{State, plugin_socket_path, startup_timeout}
use rules_systemtest.Coordinator.Slots.{validate, attach, register}

-- The texts of the UUIDs that one call draws.
pub record Draws : Type 0 where
  pub socket : String
  pub fixture : String
  pub lease : String

-- A call that waits for its plugin.
pub record Pending : Type 0 where
  pub desc : FixtureDescription
  pub path : String
  pub fingerprint : FixtureFingerprint
  pub client_id : String
  pub owner : String

module _ (os : Os) where
  open os use {World}

  pub data Begun : Type 0 where
    replied : Result Status TakeLeaseResponse → Begun
    provisioning : Pending → Begun

  abbrev pub Process : Type 0
  Process = PluginProcess os

  -- A reply with the state that it leaves, or the call as it waits and the state as it was.
  abbrev pub reply_or_wait :
      Option (State Process × TakeLeaseResponse) → Pending → State Process → Begun × State Process
  reply_or_wait (some (s', response)) p s = (replied (ok response), s')
  reply_or_wait none p s = (provisioning p, s)

  abbrev pub begin_with :
      TakeLeaseRequest
      → FixtureDescription × String
      → Draws
      → State Process
      → Result Status FixtureFingerprint
      → Begun × State Process
  begin_with req (desc, path) draws s (err e) = (replied (err e), s)
  begin_with req (desc, path) draws s (ok fp) =
      reply_or_wait (attach s fp req.client_id (Lease.random draws.lease))
        (record {
          desc = desc;
          path = path;
          fingerprint = fp;
          client_id = req.client_id;
          owner = req.owner;
        })
        s

  module _ (codec : Codec) where
    -- `FixtureFingerprint::compute(…).map_err(…)`
    abbrev pub fingerprint_of : FixtureDescription × String → Eff Status World FixtureFingerprint
    fingerprint_of (desc, path) =
        or_status (compute os codec desc path) (internal_error "computing fingerprint")

    abbrev pub begin_valid :
        TakeLeaseRequest
        → Draws
        → State Process
        → World
        → Result Status (FixtureDescription × String)
        → Begun × State Process × World
    begin_valid req draws s w (err e) = (replied (err e), s, w)
    begin_valid req draws s w (ok valid) =
        let (fp, w') = fingerprint_of valid w in
        let (begun, s') = begin_with req valid draws s fp in (begun, s', w')

    -- From the request to the end of the first locked block.
    unfoldable pub begin :
        TakeLeaseRequest → Draws → State Process → World → Begun × State Process × World
    begin req draws s w = begin_valid req draws s w (validate req)

  abbrev pub create_request : Pending → Draws → CreateRequest
  create_request p draws = record {
    impl_id = p.desc.impl_id;
    inputs = p.desc.inputs;
    metadata = some (record {
      fixture_id = Fixture.into_string (Fixture.random draws.fixture);
      client_id = p.client_id;
      owner = p.owner;
      labels = [];
    });
  }

  -- `describe` and `create_fixture`; a failure drops the plugin, and so kills its process.
  unfoldable pub create : Process → CreateRequest → Eff Status World FixtureResult
  create plugin request =
      on_error
        (do
          or_status (describe os plugin.client) (internal_error "DescribePlugin")
          or_status (create_fixture os plugin.client request) (internal_error "CreateFixture"))
        (drop_plugin os plugin)

  -- What `take_lease` does with no lock held.
  unfoldable pub provision : String → Pending → Draws → Eff Status World (Process × FixtureResult)
  unfolding create
  provision instance_dir p draws = do
    plugin ←
        or_status
          (spawn os p.path (plugin_socket_path os instance_dir draws.socket)
            (startup_timeout p.desc.startup_timeout_seconds))
          (internal_error "spawning plugin")
    result ← create plugin (create_request p draws)
    Io.pure (plugin, result)

  -- `insert` drops the record that it replaces, and so kills that fixture's plugin.
  abbrev pub drop_replaced : Option (FixtureRecord Process) → World → World
  drop_replaced none w = w
  drop_replaced (some r) w = drop_plugin os r.plugin w

  -- From the outcome of `provision` to the reply.
  unfoldable pub finish :
      Pending
      → Draws
      → Result Status (Process × FixtureResult)
      → State Process
      → World
      → Result Status TakeLeaseResponse × State Process × World
  finish p draws (err e) s w = (err e, s, w)
  finish p draws (ok (plugin, result)) s w =
      let (s', response) =
        register s p.fingerprint p.desc p.client_id plugin result (Lease.random draws.lease) in
      (ok response, s', drop_replaced (Map.get s.fixtures p.fingerprint) w)

  -- The rest of the call; `others` is what other handlers do to the state meanwhile.
  abbrev pub continue_begun :
      String
      → Draws
      → (State Process → State Process)
      → Begun × State Process × World
      → Result Status TakeLeaseResponse × State Process × World
  continue_begun instance_dir draws others (replied r, s, w) = (r, s, w)
  continue_begun instance_dir draws others (provisioning p, s, w) =
      let (outcome, w') = provision instance_dir p draws w in finish p draws outcome (others s) w'

  -- The whole handler.
  unfoldable pub take_lease :
      Codec
      → String
      → Draws
      → (State Process → State Process)
      → TakeLeaseRequest
      → State Process
      → World
      → Result Status TakeLeaseResponse × State Process × World
  take_lease codec instance_dir draws others req s w =
      continue_begun instance_dir draws others (begin codec req draws s w)
