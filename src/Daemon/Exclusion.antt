-- ===== src/Daemon/Exclusion.antt =====
-- `main` of src/coordinator/src/bin/coordinator_local.rs while another daemon has the lock.
use Prim.Native.String.{◌++◌}
use rules_systemtest.Prelude.{String, ◌≢◌, ◌≡◌, refl, Option, none, some}
use rules_systemtest.Result.{Result, ok, err, Error, with_context}
use rules_systemtest.Io.{continue, ◌>>=◌}
use rules_systemtest.Daemon.{
  Host, Args, TryLockError, would_block, error, directory_of, lock_outcome, lock_instance,
  serve_locked, main,
}

-- What holds while another process has the lock, of the files `Mine` that this process opens:
-- making directories, opening the lock file and closing it keep what is safe, and an attempt to
-- lock fails and keeps it.
pub record IsHeld (host : Host) (Mine : host.File → Type 0) (Safe : host.World → Type 0)
    : Type 0 where
  pub dir_keeps : (p : String) (w : host.World) → Safe w → Safe (host.create_dir_all p w).1
  pub open_keeps : (p : String) (w : host.World) → Safe w → Safe (host.open_file p w).1
  pub opens : (p : String) (w : host.World) (f : host.File) → (host.open_file p w).0 ≡ ok f → Mine f
  pub close_keeps : (f : host.File) (w : host.World) → Mine f → Safe w → Safe (host.close f w)
  pub lock_keeps : (f : host.File) (w : host.World) → Mine f → Safe w → Safe (host.try_lock f w).1
  pub lock_fails :
      (f : host.File) (w : host.World) → Mine f → Safe w → (host.try_lock f w).0 ≢ ok tt

module _ (host : Host) (Mine : host.File → Type 0) (Safe : host.World → Type 0)
    (held : IsHeld host Mine Safe) where
  open host use {World, File}

  -- Not locked, or failed: in both cases the world is safe.
  abbrev NotLocked : Result Error (Option File) × World → Type 0
  NotLocked (ok none, w) = Safe w
  NotLocked (ok (some _), w) = ⊥
  NotLocked (err _, w) = Safe w

  lock_outcome-NotLocked :
      (path : String) (lock : File) (r : Result TryLockError (Unit {0}) × World)
      → Mine lock
      → Safe r.1
      → r.0 ≢ ok tt
      → NotLocked (lock_outcome host path lock r)
  lock_outcome-NotLocked path lock (ok _, w) mine safe fails = absurd (fails refl)
  lock_outcome-NotLocked path lock (err would_block, w) mine safe fails =
      held.close_keeps lock w mine safe
  lock_outcome-NotLocked path lock (err (error e), w) mine safe fails =
      held.close_keeps lock w mine safe

  lock_instance-NotLocked :
      (dir : String) (w : World) → Safe w → NotLocked (lock_instance host dir w)
  unfolding lock_instance
  lock_instance-NotLocked dir w safe =
      opened (host.open_file path w).0 (host.open_file path w).1 (held.opens path w)
        (held.open_keeps path w safe)
    where
      path : String
      path = host.join dir ".lock"

      opened :
          (r : Result Error File) (u : World)
          → ((f : File) → r ≡ ok f → Mine f)
          → Safe u
          → NotLocked (
              continue
                (with_context r ("opening lock file " ++ host.debug_path path))
                (λ lock u. lock_outcome host path lock (host.try_lock lock u))
                u)
      opened (err e) u own s = s
      opened (ok lock) u own s =
          lock_outcome-NotLocked path lock (host.try_lock lock u) (own lock refl)
            (held.lock_keeps lock u (own lock refl) s) (held.lock_fails lock u (own lock refl) s)

  serve_locked-Safe :
      (dir socket : String) (r : Result Error (Option File)) (w : World)
      → NotLocked (r, w)
      → Safe (continue r (serve_locked host dir socket) w).1
  serve_locked-Safe dir socket (ok none) w s = s
  serve_locked-Safe dir socket (ok (some _)) w s = absurd s
  serve_locked-Safe dir socket (err e) w s = s

  -- While another process holds the instance lock, a run of the daemon's main keeps, however it
  -- ends, every property of the world that making directories, opening the lock file, failing to
  -- lock it and closing it keep.
  pub main-Safe : (args : Args) (w : World) → Safe w → Safe (main host args w).1
  unfolding main
  main-Safe args w safe =
      made (host.create_dir_all dir w).0 (host.create_dir_all dir w).1 (held.dir_keeps dir w safe)
    where
      dir : String
      dir = directory_of (host.parent args.socket)

      made :
          (r : Result Error (Unit {0})) (u : World)
          → Safe u
          → Safe
              (continue
                (with_context r ("creating socket directory " ++ host.debug_path dir))
                (λ _. lock_instance host dir >>= serve_locked host dir args.socket)
                u).1
      made (err e) u s = s
      made (ok _) u s = serve_locked-Safe dir args.socket _ _ (lock_instance-NotLocked dir u s)

-- Where the directory and the lock file can be made and another process holds the lock, main ends
-- well, with the lock file closed, and does nothing else.
pub main-second :
    (host : Host) (args : Args) (lock : host.File) (w w₁ w₂ w₃ : host.World)
    → host.create_dir_all (directory_of (host.parent args.socket)) w ≡ (ok tt, w₁)
    → host.open_file (host.join (directory_of (host.parent args.socket)) ".lock") w₁ ≡ (ok lock, w₂)
    → host.try_lock lock w₂ ≡ (err would_block, w₃)
    → main host args w ≡ (ok tt, host.close lock w₃)
unfolding main lock_instance
main-second host args lock w w₁ w₂ w₃ made opened blocked = rw (made, opened, blocked) refl
