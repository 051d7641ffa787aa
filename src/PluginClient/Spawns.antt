-- ===== src/PluginClient/Spawns.antt =====
-- Every way in which `PluginProcess::spawn` of src/coordinator/src/plugin_client.rs ends.
use Prim.Native.String.{◌++◌}
use rules_systemtest.Prelude.{
  ℕ, ◌+◌, String, List, ◌≡◌, refl, subst, inl, inr, Option, none, some, [], ◌∷◌,
}
use rules_systemtest.Result.{Result, ok, err, Error}
use rules_systemtest.Io.Inversion.{Result-cases}
use rules_systemtest.Os.{Os}
use rules_systemtest.PluginClient.Connect.{connect_with_retry}
use rules_systemtest.PluginClient.Process.{PluginProcess, create_parent, spawn}
use rules_systemtest.PluginClient.Connects.{IsClock, Connects, connect_with_retry-Connects}
use rules_systemtest.PluginClient.Abandons.{spawn-abandons}

module _ (os : Os) (binary_path socket_path : String) (timeout : ℕ) where
  open os use {World, Child, Channel}

  abbrev arguments : List String
  arguments = "--socket" ∷ socket_path ∷ []

  -- A socket path without a parent is the root or empty: there is no directory to make.
  pub data MakesParent (w : World) : Result Error (Unit {0}) → World → Type 0 where
    no_parent : os.parent socket_path ≡ none → MakesParent w (ok tt) w
    made :
        (parent : String) (w₁ : World)
        → os.parent socket_path ≡ some parent
        → os.create_dir_all parent w ≡ (ok tt, w₁)
        → MakesParent w (ok tt) w₁
    not_made :
        (parent : String) (e : Error) (w₁ : World)
        → os.parent socket_path ≡ some parent
        → os.create_dir_all parent w ≡ (err e, w₁)
        → MakesParent w (err (("creating plugin socket dir " ++ os.debug_path parent) ∷ e)) w₁

  -- The child is started after the stale socket is removed, and is connected to until the timeout.
  pub data Spawns (w : World) (out : Result Error (PluginProcess os) × World) : Type 0 where
    no_directory :
        (e : Error) (w₁ : World) → MakesParent w (err e) w₁ → out ≡ (err e, w₁) → Spawns w out
    not_started :
        (e : Error) (w₁ w₂ : World)
        → MakesParent w (ok tt) w₁
        → os.spawn binary_path arguments (os.remove_file socket_path w₁).1 ≡ (err e, w₂)
        → out ≡ (err (("spawning plugin binary " ++ binary_path) ∷ e), w₂)
        → Spawns w out
    abandoned :
        (child : Child) (e : Error) (w₁ w₂ w₃ : World)
        → MakesParent w (ok tt) w₁
        → os.spawn binary_path arguments (os.remove_file socket_path w₁).1 ≡ (ok child, w₂)
        → Connects os child socket_path (os.now w₂ + timeout) w₂ (err e) w₃
        → out ≡ (err e, w₃)
        → Spawns w out
    connected :
        (child : Child) (channel : Channel) (w₁ w₂ w₃ : World)
        → MakesParent w (ok tt) w₁
        → os.spawn binary_path arguments (os.remove_file socket_path w₁).1 ≡ (ok child, w₂)
        → Connects os child socket_path (os.now w₂ + timeout) w₂ (ok channel) w₃
        → out ≡ (ok (record { child = child; client = channel }), w₃)
        → Spawns w out

  parent-MakesParent :
      (w : World) (o : Option String)
      → os.parent socket_path ≡ o
      → MakesParent w (create_parent os o w).0 (create_parent os o w).1
  unfolding create_parent
  parent-MakesParent w none h = no_parent h
  parent-MakesParent w (some parent) h = elim (Result-cases (os.create_dir_all parent w)) [
    | inl (tt, w₁, done) ↦ rw done (made parent w₁ h done)
    | inr (e, w₁, failed) ↦ rw failed (not_made parent e w₁ h failed)
  ]

  create_parent-MakesParent :
      (w : World) (r : Result Error (Unit {0})) (w₁ : World)
      → create_parent os (os.parent socket_path) w ≡ (r, w₁)
      → MakesParent w r w₁
  create_parent-MakesParent w r w₁ h =
      subst (λ (x : Result Error (Unit {0}) × World). MakesParent w x.0 x.1) h
        (parent-MakesParent w (os.parent socket_path) refl)

  module _ (clock : IsClock os) where
    connect-Connects :
        (child : Child) (w w' : World) (r : Result Error Channel)
        → connect_with_retry os child socket_path timeout w ≡ (r, w')
        → Connects os child socket_path (os.now w + timeout) w r w'
    connect-Connects child w w' r h =
        subst
          (λ (x : Result Error Channel × World).
            Connects os child socket_path (os.now w + timeout) w x.0 x.1)
          h (connect_with_retry-Connects os clock child socket_path timeout w)

    started-Spawns :
        (child : Child) (w w₁ w₂ : World)
        → create_parent os (os.parent socket_path) w ≡ (ok tt, w₁)
        → os.spawn binary_path arguments (os.remove_file socket_path w₁).1 ≡ (ok child, w₂)
        → Spawns w (spawn os binary_path socket_path timeout w)
    unfolding spawn
    started-Spawns child w w₁ w₂ h started =
        let parent = create_parent-MakesParent w (ok tt) w₁ h in
        elim (Result-cases (connect_with_retry os child socket_path timeout w₂)) [
          | inr (e, w₃, failed) ↦
              abandoned child e w₁ w₂ w₃ parent started
                (connect-Connects child w₂ w₃ (err e) failed)
                (spawn-abandons os binary_path socket_path timeout child e w w₁ w₂ w₃ h started
                  failed)
          | inl (channel, w₃, done) ↦
              connected child channel w₁ w₂ w₃ parent started
                (connect-Connects child w₂ w₃ (ok channel) done) (rw (h, started, done) refl)
        ]

    -- Where a sleep moves the clock on by its length and connecting and polling do not turn it
    -- back, spawn ends in one of these ways: with the error of making the parent of the socket
    -- path, where the path has one; after removing the stale socket, with the error of starting
    -- the plugin; with a child that no connection reached - polling failed, or it exited, or the
    -- timeout passed - and then nothing is done to it after the last poll; or with the child and
    -- its connection. Each round of connecting but the last sleeps before the deadline, which is
    -- the timeout after the child was started.
    pub spawn-Spawns : (w : World) → Spawns w (spawn os binary_path socket_path timeout w)
    unfolding spawn
    spawn-Spawns w = elim (Result-cases (create_parent os (os.parent socket_path) w)) [
      | inr (e, w₁, failed) ↦
          no_directory e w₁ (create_parent-MakesParent w (err e) w₁ failed) (rw failed refl)
      | inl (tt, w₁, h) ↦
          elim (Result-cases (os.spawn binary_path arguments (os.remove_file socket_path w₁).1)) [
            | inr (e, w₂, failed) ↦
                not_started e w₁ w₂ (create_parent-MakesParent w (ok tt) w₁ h) failed
                  (rw (h, failed) refl)
            | inl (child, w₂, started) ↦ started-Spawns child w w₁ w₂ h started
          ]
    ]
