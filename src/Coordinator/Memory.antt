-- ===== src/Coordinator/Memory.antt =====
-- The state of the coordinator, and the helpers of its handlers.
use Prim.Native.String.{◌++◌, slice}
use rules_systemtest.Prelude.{
  ℕ, ◌*◌, String, Bool, true, false, Option, none, some, ◌==◌, string_eq, if◌then◌else◌,
}
use rules_systemtest.Prelude.Int.{ℤ, pos, pos_part, ltb_ℤ, max_ℤ}
use rules_systemtest.Map
use rules_systemtest.Map.{Map}
use rules_systemtest.Os.{Os}
use rules_systemtest.Proto.{Sharing, UseScope, unrestricted, client_restricted, single_use}
use rules_systemtest.Fixture.{FixtureFingerprint, FixtureRecord}
use rules_systemtest.Lease.{LeaseId, LeaseRecord}

-- `P` is the plugin process that a fixture keeps alive.
pub record State (P : Type 0) : Type 0 where
  pub fixtures : Map FixtureFingerprint (FixtureRecord P)
  pub leases : Map LeaseId LeaseRecord

unfoldable pub default : {P : Type 0} → State P
default = record { fixtures = Map.empty; leases = Map.empty }

-- The mutex is its content: a handler runs from one lock to the next unlock without a break.
pub record Coordinator (P : Type 0) : Type 0 where
  pub instance_dir : String
  pub state : State P

unfoldable pub new : {P : Type 0} → String → Coordinator P
unfolding default
new instance_dir = record { instance_dir = instance_dir; state = default }

-- The UUID is drawn in its simple form, 32 hexadecimal digits.
unfoldable pub plugin_socket_path : (os : Os) → String → String → String
plugin_socket_path os instance_dir uuid =
    os.join (os.join instance_dir "plugins") (slice uuid 0 8 ++ ".sock")

unfoldable pub scope_admits : Option UseScope → String → String → Bool
scope_admits (some (unrestricted _)) creator requester = true
scope_admits (some (client_restricted _)) creator requester = creator == requester
scope_admits none creator requester = creator == requester
scope_admits (some (single_use _)) creator requester = false

unfoldable pub sharing_admits : Sharing → String → String → Bool
unfolding scope_admits
sharing_admits sharing creator_client_id requester_client_id =
    scope_admits sharing.use_scope creator_client_id requester_client_id

-- `record.sharing.maximum_concurrent_connections.max(1)`
abbrev pub max_slots : Sharing → ℤ
max_slots sharing = max_ℤ sharing.maximum_concurrent_connections (pos 1)

-- The policy of a fixture whose description states none.
abbrev pub default_sharing : Sharing
default_sharing = record {
  maximum_concurrent_connections = pos 1;
  use_scope = some (client_restricted (record {}));
}

-- The timeout in milliseconds: 300 seconds where the description states none.
unfoldable pub startup_timeout : ℤ → ℕ
startup_timeout seconds = (if ltb_ℤ (pos 0) seconds then pos_part seconds else 300) * 1000
