-- ===== src/Dummy/Served.antt =====
-- `create_fixture` of src/plugins/dummy/src/main.rs against the loop of
-- src/coordinator/src/plugin_client.rs that reads its stream.

use rules_systemtest.Prelude.{◌≡◌, refl, ap, List, ◌∷◌, [], map, some}
use rules_systemtest.Result.{Result, ok, Error, Status, map_err}
use rules_systemtest.Os.{Os}
use rules_systemtest.Proto.{Bytes, CreateProgress, CreateRequest}
use rules_systemtest.PluginClient.{drain, progress_status}
use rules_systemtest.Proto.{create_progress_status_number, create_progress_status_try_from}
use rules_systemtest.Dummy.{ports_input, stub_result, stub_progress, stream_of, create_fixture}
use rules_systemtest.Dummy.Ports.{Json, list_or_default, ports, ports_schema_blob, blob, blob_of}
use rules_systemtest.Dummy.Ordered.{ports-Lists}

pub drain-stub :
    (os : Os) (status_error : Status → Error) (contents : Bytes)
    → drain os (map (map_err status_error) (ok (stub_progress contents) ∷ []))
      ≡ ok (stub_result contents)
unfolding drain progress_status create_progress_status_number create_progress_status_try_from
drain-stub os status_error contents = refl

module _ (os : Os) (status_error : Status → Error) (json : Json) (req : CreateRequest) where
  open json use {JsonValue}

  pub create_fixture-blob :
      (values : List JsonValue)
      → ports json (list_or_default (json.from_str (ports_input req))) ≡ some values
      → create_fixture json req ≡ some (ok (stub_progress (blob json values)) ∷ [])
  unfolding create_fixture ports_schema_blob
  create_fixture-blob values e = ap (λ o. stream_of (blob_of json o)) e

  -- For every request the stub plugin's CreateFixture answers with a stream, and the coordinator's
  -- loop over that stream, however its statuses become errors, succeeds with the fixture result
  -- that holds the JSON of the listed ports.
  pub create_fixture-drained :
      (values : List JsonValue) × (stream : List (Result Status CreateProgress)) × (ports json
          (list_or_default (json.from_str (ports_input req)))
        ≡ some values)
      × (create_fixture json req ≡ some stream)
      × (drain os (map (map_err status_error) stream) ≡ ok (stub_result (blob json values)))
  create_fixture-drained =
      let (values, names, e, l, o, p) =
        ports-Lists json (list_or_default (json.from_str (ports_input req))) in
      (
        values,
        ok (stub_progress (blob json values)) ∷ [],
        e,
        create_fixture-blob values e,
        drain-stub os status_error (blob json values),
      )
