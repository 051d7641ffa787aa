-- ===== src/PluginClient/Process.antt =====
-- `PluginProcess` of src/coordinator/src/plugin_client.rs.
use Prim.Native.String.{◌++◌}
use rules_systemtest.Prelude.{ℕ, String, Option, none, some, [], ◌∷◌}
use rules_systemtest.Io.{Io, pure, context, ignore, ◌>>=◌, ◌>>◌}
use rules_systemtest.Os.{Os}
use rules_systemtest.PluginClient.Connect.{connect_with_retry}

module _ (os : Os) where
  open os use {World, Child, Channel}

  pub record PluginProcess : Type 0 where
    pub child : Child
    pub client : Channel

  -- `if let Some(parent) = socket_path.parent() { … }`
  unfoldable pub create_parent : Option String → Io World (Unit {0})
  create_parent none = pure tt
  create_parent (some parent) =
      context (os.create_dir_all parent) ("creating plugin socket dir " ++ os.debug_path parent)

  -- A child that no connection reaches in time is left as it is: there is no `PluginProcess` yet.
  unfoldable pub spawn : String → String → ℕ → Io World PluginProcess
  unfolding create_parent connect_with_retry
  spawn binary_path socket_path startup_timeout = do
    create_parent (os.parent socket_path)
    ignore (os.remove_file socket_path)
    child ←
        context (os.spawn binary_path ("--socket" ∷ socket_path ∷ []))
          ("spawning plugin binary " ++ binary_path)
    channel ← connect_with_retry os child socket_path startup_timeout
    pure (record { child = child; client = channel })

  -- `Drop::drop`
  unfoldable pub drop_plugin : PluginProcess → World → World
  drop_plugin p w = os.start_kill p.child w
