-- ===== src/Daemon.antt =====
-- `lock_instance` and `main` of src/coordinator/src/bin/coordinator_local.rs. Files, locks, sockets
-- and the gRPC server are operations of a `Host`, parameters of the model.
pub mod Exclusion
use Prim.Native.String.{◌++◌}
use rules_systemtest.Prelude.{String, Option, none, some, ◌∷◌}
use rules_systemtest.Result.{Result, ok, err, Error, with_context}
use rules_systemtest.Io.{Io, context, pure, ignore, ◌>>=◌, ◌>>◌}
use rules_systemtest.Coordinator.{Coordinator, new}

-- `std::fs::TryLockError`
pub data TryLockError : Type 0 where
  would_block : TryLockError
  error : Error → TryLockError

pub record Host : Type 1 where
  pub World : Type 0
  pub File : Type 0
  pub Listener : Type 0
  pub Process : Type 0
  -- `Path::parent`, `Path::join` and the `{:?}` of a path
  pub parent : String → Option String
  pub join : String → String → String
  pub debug_path : String → String
  -- `std::fs`; `open_file` is `OpenOptions` with create, read and write, and `close` is the drop of a
  -- file, which gives up its lock
  pub create_dir_all : String → Io World (Unit {0})
  pub open_file : String → Io World File
  pub try_lock : File → World → Result TryLockError (Unit {0}) × World
  pub close : File → World → World
  pub remove_file : String → Io World (Unit {0})
  -- `UnixListener::bind`, and a `Server` that serves the service until it ends
  pub bind : String → Io World Listener
  pub serve : Listener → Coordinator Process → Io World (Unit {0})

pub record Args : Type 0 where
  pub workspace : String
  pub socket : String

-- The value is dropped at the end of the scope, however it ends.
abbrev pub then_drop : {W A : Type 0} → (W → W) → Io W A → Io W A
then_drop drop m w = ((m w).0, drop (m w).1)

-- `socket.parent().map(Path::to_path_buf).unwrap_or_else(|| PathBuf::from("."))`
abbrev pub directory_of : Option String → String
directory_of none = "."
directory_of (some dir) = dir

module _ (host : Host) where
  open host use {World, File}

  -- The `match` on the attempt to lock; a file that is not returned is dropped.
  abbrev pub lock_outcome :
      String → File → Result TryLockError (Unit {0}) × World → Result Error (Option File) × World
  lock_outcome path lock (ok _, w) = (ok (some lock), w)
  lock_outcome path lock (err would_block, w) = (ok none, host.close lock w)
  lock_outcome path lock (err (error e), w) =
      (err (("locking " ++ host.debug_path path) ∷ e), host.close lock w)

  unfoldable pub lock_instance : String → Io World (Option File)
  lock_instance dir = do
    lock ←
        context (host.open_file (host.join dir ".lock"))
          ("opening lock file " ++ host.debug_path (host.join dir ".lock"))
    (λ w. lock_outcome (host.join dir ".lock") lock (host.try_lock lock w))

  -- From the lock to the end of `main`.
  unfoldable pub serve_instance : String → String → Io World (Unit {0})
  serve_instance instance_dir socket = do
    ignore (host.remove_file socket)
    listener ←
        context (host.bind socket) ("binding coordinator socket at " ++ host.debug_path socket)
    context (host.serve listener (new instance_dir)) "coordinator server exited"

  -- The `let … else` on the lock.
  abbrev pub serve_locked : String → String → Option File → Io World (Unit {0})
  serve_locked instance_dir socket none = pure tt
  serve_locked instance_dir socket (some lock) =
      then_drop (host.close lock) (serve_instance instance_dir socket)

  unfoldable pub main : Args → Io World (Unit {0})
  main args =
      let instance_dir = directory_of (host.parent args.socket) in
      (do
        context (host.create_dir_all instance_dir)
            ("creating socket directory " ++ host.debug_path instance_dir)
        lock ← lock_instance instance_dir
        serve_locked instance_dir args.socket lock)
