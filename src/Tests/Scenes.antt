-- ===== src/Tests/Scenes.antt =====
-- Descriptions, requests and states to try the handlers on.
use rules_systemtest.Prelude.{ℕ, String, Option, none, some, List, [], ◌∷◌}
use rules_systemtest.Prelude.Int.{pos}
use rules_systemtest.Result.{Result, ok, err, Error}
use rules_systemtest.Os.{Os}
use rules_systemtest.Proto.{
  FixtureDescription, FixturePlugin, binary_path, Sharing, unrestricted, CreateProgress,
  FixtureResult, TakeLeaseRequest, ReleaseRequest,
}
use rules_systemtest.Fixture.{FixtureFingerprint}
use rules_systemtest.Coordinator.{Draws, Pending, Process}
use rules_systemtest.Tests.Machine.{Box, box_os}

abbrev pub result : FixtureResult
result = record { outputs = []; idle_timeout_seconds = pos 60; instance_data = []; consumed = [] }

abbrev pub progress : ℕ → Option FixtureResult → CreateProgress
progress status r = record { status = pos status; element_infos = []; result = r }

-- Two messages of a fixture under way, the last one, and one that is never read.
abbrev pub stream : List (Result Error CreateProgress)
stream =
    ok (progress 1 none)
    ∷ ok (progress 3 none)
    ∷ ok (progress 4 (some result))
    ∷ err ("lost" ∷ [])
    ∷ []

abbrev pub os : Os
os = box_os 120 stream

abbrev pub start : Box
start = record { time = 0; killed = [] }

abbrev pub two_slots : Sharing
two_slots = record {
  maximum_concurrent_connections = pos 2;
  use_scope = some (unrestricted (record {}));
}

abbrev pub description : String → Option FixturePlugin → FixtureDescription
description name plugin = record {
  impl_id = "redis";
  inputs = [];
  image_inputs = [];
  file_inputs = [];
  sharing = some two_slots;
  startup_timeout_seconds = pos 1;
  name = name;
  plugin = plugin;
}

abbrev pub request : Option FixturePlugin → TakeLeaseRequest
request plugin = record {
  fixture = some (description "cache" plugin);
  client_id = "alice";
  owner = "alice";
  ttl_seconds = pos 30;
  associated_tests_count = 1;
}

abbrev pub draws : String → Draws
draws lease = record { socket = "0123456789abcdef"; fixture = "f-1"; lease = lease }

abbrev pub fp : FixtureFingerprint
fp = record { text = "01" }

abbrev pub pending : Pending
pending = record {
  desc = description "cache" (some (binary_path "plugin"));
  path = "plugin";
  fingerprint = fp;
  client_id = "alice";
  owner = "alice";
}

abbrev pub plugin : ℕ → Process os
plugin child = record { child = child; client = tt }

abbrev pub release : ReleaseRequest
release = record { lease_id = "l-1" }
