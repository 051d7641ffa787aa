-- ===== src/Dummy.antt =====
-- The stub plugin: the handlers of `StubPlugin` of src/plugins/dummy/src/main.rs. None of them has
-- state.
pub mod Decimal
pub mod Numerals
pub mod Names
pub mod Ports
pub mod Ordered
pub mod Served
pub mod Remote
pub mod Provided
pub mod Service
pub mod Serve
use Prim.Native.String.{String}
use rules_systemtest.Prelude.{ℕ, List, [], ◌∷◌, Option, none, some, true}
use rules_systemtest.Prelude.Int.{pos}
use rules_systemtest.Result.{Result, ok, Status}
use rules_systemtest.Proto
use rules_systemtest.Proto.{
  Bytes, BTreeMap, Value, ValueKind, Empty, CreateProgress, CreateRequest, DescribeResponses,
  DestroyRequest, DestroyResponse, FixtureResult, HealthCheckRequest, HealthCheckResponse,
  ResourcePool, ResourceRequests, create_progress_status_number, create_progress_succeeded,
}
use rules_systemtest.Dummy.Ports.{Json, index, ports_schema_blob}

abbrev pub impl_id : String
impl_id = "@rules_systemtest//fixtures:dummy"

unfoldable pub describe_plugin : Empty → Result Status DescribeResponses
describe_plugin _ = ok (record {
  responses =
      record { impl_id = impl_id; version = "0.0.1"; schemas = ("systemtest.ports", "{}") ∷ [] }
      ∷ [];
})

unfoldable pub get_resource_pool : CreateRequest → Result Status ResourcePool
get_resource_pool _ = ok (record { pool_id = "local"; resources = [] })

unfoldable pub get_resource_requests : CreateRequest → Result Status ResourceRequests
get_resource_requests _ = ok (record { consumes = [] })

unfoldable pub destroy_fixture : DestroyRequest → Result Status DestroyResponse
destroy_fixture _ = ok (record {})

unfoldable pub health_check : HealthCheckRequest → Result Status HealthCheckResponse
health_check _ = ok (record { healthy = true; message = "" })

abbrev pub as_str : Option ValueKind → Option String
as_str (some (Proto.str s)) = some s
as_str (some _) = none
as_str none = none

abbrev pub text_or_braces : Option String → String
text_or_braces (some s) = s
text_or_braces none = "{}"

-- The text of the input "ports", or an empty object.
unfoldable pub ports_input : CreateRequest → String
ports_input req =
    text_or_braces (elim (index req.inputs "ports") [ none ↦ none | some v ↦ as_str v.value ])

abbrev pub stub_result : Bytes → FixtureResult
stub_result contents = record {
  outputs =
      (
        "endpoints",
        record {
          value =
              some (
                Proto.schema_blob (record { schema_id = "systemtest.ports"; contents = contents }));
        },
      )
      ∷ [];
  idle_timeout_seconds = pos 60;
  instance_data = 115 ∷ 116 ∷ 117 ∷ 98 ∷ [];
  consumed = [];
}

abbrev pub stub_progress : Bytes → CreateProgress
stub_progress contents = record {
  status = create_progress_status_number create_progress_succeeded;
  element_infos = [];
  result = some (stub_result contents);
}

-- The stream has the one message; `none` is a panic.
abbrev pub stream_of : Option Bytes → Option (List (Result Status CreateProgress))
stream_of none = none
stream_of (some contents) = some (ok (stub_progress contents) ∷ [])

unfoldable pub create_fixture : Json → CreateRequest → Option (List (Result Status CreateProgress))
create_fixture json req = stream_of (ports_schema_blob json (ports_input req))
