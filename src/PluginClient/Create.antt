-- ===== src/PluginClient/Create.antt =====
-- `describe` and `create_fixture` of src/coordinator/src/plugin_client.rs.
use Prim.Native.String.{◌++◌}
use rules_systemtest.Prelude.{Option, none, some, List, [], ◌∷◌}
use rules_systemtest.Result.{Result, ok, err, Error, ok_or_else}
use rules_systemtest.Io.{Io, lift, ◌>>=◌}
use rules_systemtest.Os.{Os}
use rules_systemtest.Proto.{
  CreateProgressStatus, create_progress_unknown, create_progress_succeeded, create_progress_error,
  create_progress_status_try_from, CreateProgress, CreateRequest, DescribeResponses, FixtureResult,
}

abbrev pub or_unknown : Option CreateProgressStatus → CreateProgressStatus
or_unknown none = create_progress_unknown
or_unknown (some s) = s

-- `progress.status()`: the variant of the number, or the first variant for a number of none.
unfoldable pub progress_status : CreateProgress → CreateProgressStatus
progress_status p = or_unknown (create_progress_status_try_from p.status)

module _ (os : Os) where
  open os use {World, Channel}

  -- The loop of `create_fixture`, over what the stream yields until it ends.
  unfoldable pub drain : List (Result Error CreateProgress) → Result Error FixtureResult
  drain [] = err ("plugin closed CreateFixture stream without a terminal message" ∷ [])
  drain (err e ∷ rest) = err e
  drain (ok progress ∷ rest) = elim (progress_status progress) [
    | create_progress_succeeded ↦
        ok_or_else progress.result ("CREATE_PROGRESS_SUCCEEDED with no result" ∷ [])
    | create_progress_error ↦
        err (("plugin CreateFixture failed: " ++ os.debug_infos progress.element_infos) ∷ [])
    | _ ↦ drain rest
  ]

  unfoldable pub create_fixture : Channel → CreateRequest → Io World FixtureResult
  create_fixture client request = do stream ← os.create_fixture client request; lift (drain stream)

  unfoldable pub describe : Channel → Io World DescribeResponses
  describe client = os.describe_plugin client
