-- ===== src/PluginClient/Abandons.antt =====
-- `PluginProcess::spawn` of src/coordinator/src/plugin_client.rs where the plugin never serves.

use rules_systemtest.Prelude.{ℕ, String, ◌≡◌, refl, ◌∷◌, []}
use rules_systemtest.Result.{ok, err, Error}
use rules_systemtest.Os.{Os}
use rules_systemtest.PluginClient.Connect.{connect_with_retry}
use rules_systemtest.PluginClient.Process.{create_parent, spawn}

-- Where the socket's directory is made and the plugin is started but connecting to it fails, spawn
-- fails with that error in the world that connecting left: nothing more is done to the child.
pub spawn-abandons :
    (os : Os) (binary_path socket_path : String) (timeout : ℕ) (child : os.Child) (e : Error)
    (w w₁ w₂ w₃ : os.World)
    → create_parent os (os.parent socket_path) w ≡ (ok tt, w₁)
    → os.spawn binary_path ("--socket" ∷ socket_path ∷ []) (os.remove_file socket_path w₁).1
      ≡ (ok child, w₂)
    → connect_with_retry os child socket_path timeout w₂ ≡ (err e, w₃)
    → spawn os binary_path socket_path timeout w ≡ (err e, w₃)
unfolding spawn
spawn-abandons os binary_path socket_path timeout child e w w₁ w₂ w₃ made started failed =
    rw (made, started, failed) refl
