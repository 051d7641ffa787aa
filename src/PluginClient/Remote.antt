-- ===== src/PluginClient/Remote.antt =====
-- The calls of src/coordinator/src/plugin_client.rs on a `CoordinatorPluginClient` of
-- src/proto/systemtestrs/src/lib.rs: what `client.describe_plugin`, `client.create_fixture` and
-- `stream.message` are over tonic. `status_error` is the conversion of a status by `?`.
use rules_systemtest.Prelude.{List, map}
use rules_systemtest.Result.{Result, Error, Status, map_err, map_ok}
use rules_systemtest.Io.{Io, or_status}
use rules_systemtest.Os.{Os}
use rules_systemtest.Proto.{CreateRequest, CreateProgress, DescribeResponses}
use rules_systemtest.Rpc.Tonic.{Tonic}
use rules_systemtest.Rpc.PluginClient
use rules_systemtest.Rpc.PluginClient.{PluginMessages}

module _ (os : Os) (tonic : Tonic os.World os.Channel) (messages : PluginMessages tonic.Body)
    (status_error : Status → Error) where
  open os use {World}

  -- `client.describe_plugin(Empty {}).await?`
  unfoldable pub remote_describe_plugin : os.Channel → Io World DescribeResponses
  unfolding PluginClient.describe_plugin PluginClient.new
  remote_describe_plugin channel =
      or_status
        (PluginClient.describe_plugin tonic messages (PluginClient.new tonic channel) (record {}))
        status_error

  -- `client.create_fixture(request).await?` and what `stream.message().await?` then yields.
  unfoldable pub remote_create_fixture :
      os.Channel → CreateRequest → Io World (List (Result Error CreateProgress))
  unfolding PluginClient.create_fixture PluginClient.new
  remote_create_fixture channel request w =
      let (stream, w') =
        PluginClient.create_fixture tonic messages (PluginClient.new tonic channel) request w in
      (map_ok (map (map_err status_error)) (map_err status_error stream), w')

  -- The operations of the coordinator, with its two calls to a plugin over tonic.
  abbrev pub remote_os : Os
  remote_os = record os {
    describe_plugin = remote_describe_plugin;
    create_fixture = remote_create_fixture;
  }
