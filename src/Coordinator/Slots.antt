-- ===== src/Coordinator/Slots.antt =====
-- The locked parts of `take_lease`: the validation of a request, the reuse of a fixture and the
-- registration of a new one.
use rules_systemtest.Prelude.{String, Bool, ◌&&◌, Option, none, some, List, [], ◌∷◌, if◌then◌else◌}
use rules_systemtest.Prelude.Int.{pos, ltb_ℤ, add_i64}
use rules_systemtest.Result.{
  Result, ok, err, Status, invalid_argument, unimplemented, ◌>>=◌, ok_or_else,
}
use rules_systemtest.Map
use rules_systemtest.Proto.{
  BTreeMap, Value, Sharing, FixtureDescription, FixturePlugin, binary_path, container_ref,
  TakeLeaseRequest, TakeLeaseResponse, FixtureResult, lease_status_number, succeeded,
}
use rules_systemtest.Fixture.{FixtureFingerprint, FixtureRecord, fingerprint_eq}
use rules_systemtest.Lease
use rules_systemtest.Lease.{LeaseId, lease_id_eq}
use rules_systemtest.Coordinator.Memory.{State, sharing_admits, max_slots, default_sharing}

-- The `match` on `desc.plugin`.
unfoldable pub plugin_path : Option FixturePlugin → Result Status String
plugin_path (some (binary_path p)) = ok p
plugin_path (some (container_ref _)) = err (
    unimplemented
      "remote-mode (container_ref) plugins are not supported by this scaffold coordinator")
plugin_path none = err (invalid_argument "fixture.plugin is required")

-- The description and the path of the plugin, or why the request is refused.
unfoldable pub validate : TakeLeaseRequest → Result Status (FixtureDescription × String)
unfolding plugin_path
validate req = do
  desc ← ok_or_else req.fixture (invalid_argument "fixture description is required")
  path ← plugin_path desc.plugin
  ok (desc, path)

abbrev pub granted : LeaseId → BTreeMap String Value → List String → TakeLeaseResponse
granted id outputs messages = record {
  status = lease_status_number succeeded;
  lease_id = Lease.into_string id;
  outputs = outputs;
  messages = messages;
}

-- `desc.sharing.clone().unwrap_or(…)`
abbrev pub or_default : Option Sharing → Sharing
or_default none = default_sharing
or_default (some sharing) = sharing

module _ {P : Type 0} where
  -- The test of the reuse block.
  unfoldable pub can_attach : FixtureRecord P → String → Bool
  unfolding sharing_admits
  can_attach r client_id =
      sharing_admits r.sharing r.creating_client_id client_id
      && ltb_ℤ r.used_slots (max_slots r.sharing)

  abbrev pub attach_lease :
      State P → FixtureFingerprint → FixtureRecord P → LeaseId → State P × TakeLeaseResponse
  attach_lease s fp r id = (
    record {
      fixtures = Map.insert s.fixtures fp (record r { used_slots = add_i64 r.used_slots (pos 1) });
      leases = Map.insert s.leases id (record { fingerprint = fp });
    },
    granted id r.outputs ("connecting to existing fixture" ∷ []),
  )

  -- The reuse block; `none` means that a fixture has to be provisioned.
  unfoldable pub attach :
      State P → FixtureFingerprint → String → LeaseId → Option (State P × TakeLeaseResponse)
  attach s fp client_id id = elim (Map.get s.fixtures fp) [
    | none ↦ none
    | some r ↦ if can_attach r client_id then some (attach_lease s fp r id) else none
  ]

  -- The second locked block, less the drop of a record that it replaces.
  unfoldable pub register :
      State P
      → FixtureFingerprint
      → FixtureDescription
      → String
      → P
      → FixtureResult
      → LeaseId
      → State P × TakeLeaseResponse
  register s fp desc client_id plugin result id = (
    record {
      fixtures = Map.insert s.fixtures fp (record {
        outputs = result.outputs;
        sharing = or_default desc.sharing;
        creating_client_id = client_id;
        used_slots = pos 1;
        plugin = plugin;
      });
      leases = Map.insert s.leases id (record { fingerprint = fp });
    },
    granted id result.outputs [],
  )
