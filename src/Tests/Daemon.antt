-- ===== src/Tests/Daemon.antt =====
-- A second daemon on a host where the first one serves.
use rules_systemtest.Prelude.{
  ℕ, ◌≡◌, refl, sym, ap, subst, arith, Option, none, some, ◌∷◌, [], ◌==◌, nat_eq, if◌then◌else◌,
}
use rules_systemtest.Result.{ok, err}
use rules_systemtest.Daemon.{Host, Args, would_block, main, lock_instance, serve_instance}
use rules_systemtest.Dummy.Serve.{serve_plugin}
use rules_systemtest.Daemon.Exclusion.{IsHeld, main-Safe}

-- The file that has the lock, and the process that the socket belongs to.
record Machine : Type 0 where
  owner : Option ℕ
  socket : Option ℕ

abbrev host : Host
host = record {
  World = Machine;
  File = ℕ;
  Listener = Unit {0};
  Process = Unit {0};
  parent = λ _. some "run";
  join = λ a b. b;
  debug_path = λ p. p;
  create_dir_all = λ _ w. (ok tt, w);
  open_file = λ _ w. (ok 2, w);
  try_lock = λ f w. elim w.owner [
    | none ↦ (ok tt, record w { owner = some f })
    | some _ ↦ (err would_block, w)
  ];
  close =
      λ f w. elim w.owner [ none ↦ w | some g ↦ if f == g then record w { owner = none } else w ];
  remove_file = λ _ w. (ok tt, record w { socket = none });
  bind = λ _ w. (ok tt, record w { socket = some 2 });
  serve = λ _ _ w. (err ("signal" ∷ []), w);
}

abbrev args : Args
args = record { workspace = "w"; socket = "run/s.sock" }

abbrev serving : Machine
serving = record { owner = some 1; socket = some 1 }

-- With the lock free, the daemon takes the socket over and gives the lock up at its end.
takes_over :
    main host args (record { owner = none; socket = some 1 })
    ≡ (err ("coordinator server exited" ∷ "signal" ∷ []), record { owner = none; socket = some 2 })
unfolding main lock_instance serve_instance
takes_over = refl

abbrev Live : Machine → Type 0
Live w = (w.owner ≡ some 1) × (w.socket ≡ some 1)

close_second : (f : ℕ) (w : Machine) → f ≡ 2 → Live w → Live (host.close f w)
close_second f w mine h = rw (h.0, mine) h

lock_second : (f : ℕ) (w : Machine) → Live w → host.try_lock f w ≡ (err would_block, w)
lock_second f w h = simp h.0 refl

held : IsHeld host (λ f. f ≡ 2) Live
held = record {
  dir_keeps = λ p w h. h;
  open_keeps = λ p w h. h;
  opens = λ p w f e. ground arith;
  close_keeps = λ f w mine h. close_second f w mine h;
  lock_keeps = λ f w mine h. subst Live (sym (ap (λ t. t.1) (lock_second f w h))) h;
  lock_fails = λ f w mine h. λ e. cc (e, lock_second f w h);
}

main-Safe_example : Live (main host args serving).1
main-Safe_example = main-Safe host (λ f. f ≡ 2) Live held args serving (refl, refl)

-- The stub plugin takes its socket over in the same way.
plugin_takes_over :
    serve_plugin host (λ _ w. (ok tt, w)) "run/p.sock" (record { owner = none; socket = some 1 })
    ≡ (ok tt, record { owner = none; socket = some 2 })
unfolding serve_plugin
plugin_takes_over = refl
