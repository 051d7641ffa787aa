-- ===== src/Dummy/Serve.antt =====
-- `main` of src/plugins/dummy/src/main.rs, on the host of the daemon; the server is a parameter.
use Prim.Native.String.{◌++◌}
use rules_systemtest.Prelude.{String, Option, none, some}
use rules_systemtest.Io.{Io, context, pure, ignore, ◌>>=◌, ◌>>◌}
use rules_systemtest.Daemon.{Host}

module _ (host : Host) (serve : host.Listener → Io host.World (Unit {0})) where
  open host use {World}

  -- `if let Some(parent) = args.socket.parent() { … }`
  unfoldable pub plugin_parent : Option String → Io World (Unit {0})
  plugin_parent none = pure tt
  plugin_parent (some parent) =
      context (host.create_dir_all parent) ("creating plugin socket dir " ++ host.debug_path parent)

  unfoldable pub serve_plugin : String → Io World (Unit {0})
  unfolding plugin_parent
  serve_plugin socket = do
    plugin_parent (host.parent socket)
    ignore (host.remove_file socket)
    listener ← context (host.bind socket) ("binding plugin socket at " ++ host.debug_path socket)
    context (serve listener) "plugin server exited"
