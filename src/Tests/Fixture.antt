-- ===== src/Tests/Fixture.antt =====
-- Fingerprints of fixtures that differ in their names and plugin paths only.
use rules_systemtest.Prelude.{◌≡◌, refl, ◌⊎◌, Option, some, [], ◌∷◌}
use rules_systemtest.Proto.{Bytes, FixtureDescription, binary_path}
use rules_systemtest.Fixture.{compute, hex_encode}
use rules_systemtest.Fixture.Canonical.{SameIdentity, Collision, canonical}
use rules_systemtest.Fixture.Identity.{compute_complete, compute_sound}
use rules_systemtest.Tests.Machine.{box_codec}
use rules_systemtest.Tests.Scenes.{os, start, description}

hex_of_bytes : hex_encode (0 ∷ 255 ∷ 16 ∷ []) ≡ "00ff10"
unfolding hex_encode
hex_of_bytes = refl

abbrev first : FixtureDescription
first = description "cache" (some (binary_path "/sandbox/1/plugin"))

abbrev second : FixtureDescription
second = description "store" (some (binary_path "/sandbox/2/plugin"))

same : SameIdentity first second (1 ∷ 2 ∷ []) (1 ∷ 2 ∷ [])
same = record {
  impl_id = refl;
  inputs = refl;
  image_inputs = refl;
  file_inputs = refl;
  sharing = refl;
  startup_timeout_seconds = refl;
  plugin = refl;
}

compute_complete_example :
    (compute os box_codec first "plugin" start).0 ≡ (compute os box_codec second "plugin" start).0
compute_complete_example =
    compute_complete os box_codec first second "/sandbox/1/plugin" "/sandbox/2/plugin" "plugin"
      "plugin" (1 ∷ 2 ∷ []) (1 ∷ 2 ∷ []) start start start start refl refl refl refl same

-- A decoder that is right about the one message that is sent.
abbrev decode : Bytes → Option FixtureDescription
decode _ = some (canonical box_codec first (1 ∷ 2 ∷ []))

compute_sound_example : SameIdentity first second (1 ∷ 2 ∷ []) (1 ∷ 2 ∷ []) ⊎ Collision box_codec
compute_sound_example =
    compute_sound os box_codec first second "/sandbox/1/plugin" "/sandbox/2/plugin" "plugin"
      "plugin" (1 ∷ 2 ∷ []) (1 ∷ 2 ∷ []) start start start start refl refl refl refl decode refl
      refl (compute_complete_example)
