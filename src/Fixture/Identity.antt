-- ===== src/Fixture/Identity.antt =====
-- Which descriptions have one fingerprint: `FixtureFingerprint::compute` against the identity of a
-- fixture, which is its description less the name, with the content of the plugin for its path.
use Prim.Native.String.{◌++◌}
use rules_systemtest.Prelude.{String, ◌≡◌, refl, ap, ◌∙◌, sym, ◌⊎◌, string_eq, Option, some, ◌∷◌}
use rules_systemtest.Result.{Result, Error, ok, err}
use rules_systemtest.Os.{Os}
use rules_systemtest.Proto.{Bytes, FixtureDescription, FixturePlugin, binary_path}
use rules_systemtest.Fixture.Hex.{hex_encode}
use rules_systemtest.Fixture.{Codec, FixtureFingerprint, compute, pin_plugin}
use rules_systemtest.Fixture.Canonical.{
  SameIdentity, SameIdentity-canonical, Collision, canonical, fingerprint, sound_with,
  hex_digest-cases,
}

module _ (os : Os) (codec : Codec) where
  pin_plugin-read :
      (plugin : Option FixturePlugin) (path file : String) (bytes : Bytes) (u u' : os.World)
      → plugin ≡ some (binary_path path)
      → os.read file u ≡ (ok bytes, u')
      → pin_plugin os codec plugin file u
        ≡ (ok (some (binary_path (hex_encode (codec.digest bytes)))), u')
  unfolding pin_plugin
  pin_plugin-read plugin path file bytes u u' local h =
      ap (λ o. pin_plugin os codec o file u) local ∙ rw h refl

  compute-fingerprint :
      (x : FixtureDescription) (path file : String) (bytes : Bytes) (u u' : os.World)
      → x.plugin ≡ some (binary_path path)
      → os.read file u ≡ (ok bytes, u')
      → compute os codec x file u ≡ (ok (fingerprint codec x bytes), u')
  unfolding compute
  compute-fingerprint x path file bytes u u' local h =
      rw (pin_plugin-read x.plugin path file bytes u u' local h) refl

  pin_plugin-unreadable :
      (plugin : Option FixturePlugin) (path file : String) (e : Error) (u u' : os.World)
      → plugin ≡ some (binary_path path)
      → os.read file u ≡ (err e, u')
      → pin_plugin os codec plugin file u ≡ (err (("reading plugin binary at " ++ file) ∷ e), u')
  unfolding pin_plugin
  pin_plugin-unreadable plugin path file e u u' local h =
      ap (λ o. pin_plugin os codec o file u) local ∙ rw h refl

  -- With a plugin file that cannot be read there is no fingerprint.
  pub compute_unreadable :
      (x : FixtureDescription) (path file : String) (e : Error) (u u' : os.World)
      → x.plugin ≡ some (binary_path path)
      → os.read file u ≡ (err e, u')
      → compute os codec x file u ≡ (err (("reading plugin binary at " ++ file) ∷ e), u')
  unfolding compute
  compute_unreadable x path file e u u' local h =
      rw (pin_plugin-unreadable x.plugin path file e u u' local h) refl

  read-ok :
      (x : FixtureDescription) (path file : String) (fp : FixtureFingerprint) (u u' v : os.World)
      (r : Result Error Bytes)
      → os.read file u ≡ (r, v)
      → x.plugin ≡ some (binary_path path)
      → compute os codec x file u ≡ (ok fp, u')
      → (bytes : Bytes) × (r ≡ ok bytes) × (fp ≡ fingerprint codec x bytes)
  read-ok x path file fp u u' v (err e) h local done =
      absurd (cc (done, compute_unreadable x path file e u v local h))
  read-ok x path file fp u u' v (ok bytes) h local done =
      (bytes, refl, cc (done, compute-fingerprint x path file bytes u v local h))

  -- A fingerprint is that of the bytes that were read.
  pub compute-ok :
      (x : FixtureDescription) (path file : String) (fp : FixtureFingerprint) (u u' : os.World)
      → x.plugin ≡ some (binary_path path)
      → compute os codec x file u ≡ (ok fp, u')
      → (bytes : Bytes) × ((os.read file u).0 ≡ ok bytes) × (fp ≡ fingerprint codec x bytes)
  compute-ok x path file fp u u' =
      read-ok x path file fp u u' (os.read file u).1 (os.read file u).0 refl

module _ (os : Os) (codec : Codec) (d e : FixtureDescription) (p q p_file q_file : String)
    (b c : Bytes) (w w' v v' : os.World) (d_local : d.plugin ≡ some (binary_path p))
    (e_local : e.plugin ≡ some (binary_path q)) (p_read : os.read p_file w ≡ (ok b, w'))
    (q_read : os.read q_file v ≡ (ok c, v')) where
  -- Two local descriptions that agree in everything but the name and the plugin's path, whose
  -- plugins have the same bytes, have the same fingerprint.
  pub compute_complete :
      SameIdentity d e b c → (compute os codec d p_file w).0 ≡ (compute os codec e q_file v).0
  compute_complete h =
      ap (λ t. t.0) (compute-fingerprint os codec d p p_file b w w' d_local p_read)
      ∙ ap
          (λ (x : FixtureDescription).
            ok (record { text = hex_encode (codec.digest (codec.encode_to_vec x)) }))
          (SameIdentity-canonical codec d e b c h)
      ∙ sym (ap (λ t. t.0) (compute-fingerprint os codec e q q_file c v v' e_local q_read))

  -- Two local descriptions with the same fingerprint, where their encodings can be decoded, agree
  -- in everything but the name and the plugin's path, and their plugins have the same bytes - or
  -- two different byte strings with one digest are found.
  pub compute_sound :
      (decode : Bytes → Option FixtureDescription)
      → decode (codec.encode_to_vec (canonical codec d b)) ≡ some (canonical codec d b)
      → decode (codec.encode_to_vec (canonical codec e c)) ≡ some (canonical codec e c)
      → (compute os codec d p_file w).0 ≡ (compute os codec e q_file v).0
      → SameIdentity d e b c ⊎ Collision codec
  compute_sound decode d_back e_back same = sound_with codec d e b c decode d_back e_back (
      hex_digest-cases codec _ _ (
        cc (
          same,
          ap (λ t. t.0) (compute-fingerprint os codec d p p_file b w w' d_local p_read),
          ap (λ t. t.0) (compute-fingerprint os codec e q q_file c v v' e_local q_read),
        )))
