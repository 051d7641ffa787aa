-- ===== src/Fixture/Canonical.antt =====
-- What a fixture's fingerprint is the digest of, and when two descriptions have one: for
-- `FixtureFingerprint::compute` and `canonical_encoding`.

use native.Mathlib.Decide.{ℕ_discrete}
use rules_systemtest.Prelude.{
  String, ◌≡◌, ◌≢◌, ap, ◌⊎◌, inl, inr, Bool-cases, string_eq, ◌==◌, Option, some,
}
use rules_systemtest.Proto.{Bytes, FixtureDescription, binary_path}
use rules_systemtest.Fixture.Hex.{hex_encode, hex_encode-injective}
use rules_systemtest.Fixture.{Codec, FixtureFingerprint}

-- The two descriptions, with the bytes of their plugins, agree in all that makes a fixture.
pub record SameIdentity (d e : FixtureDescription) (b c : Bytes) : Type 0 where
  pub impl_id : d.impl_id ≡ e.impl_id
  pub inputs : d.inputs ≡ e.inputs
  pub image_inputs : d.image_inputs ≡ e.image_inputs
  pub file_inputs : d.file_inputs ≡ e.file_inputs
  pub sharing : d.sharing ≡ e.sharing
  pub startup_timeout_seconds : d.startup_timeout_seconds ≡ e.startup_timeout_seconds
  pub plugin : b ≡ c

String-discrete : Discrete String
String-discrete a b = elim (Bool-cases (a == b)) [
  | inl same ↦ yes ((string_eq.beq_iff a b).0 same)
  | inr differ ↦ no λ e. cc (differ, (string_eq.beq_iff a b).1 e)
]

FixtureDescription-discrete : Discrete FixtureDescription
FixtureDescription-discrete = hlevel (ℕ_discrete, String-discrete)

module _ (codec : Codec) where
  open codec use {digest, encode_to_vec}

  -- Two different byte strings with one digest.
  abbrev pub Collision : Type 0
  Collision = (x : Bytes) × (y : Bytes) × (x ≢ y) × (digest x ≡ digest y)

  -- Two different descriptions with one encoding.
  abbrev pub Ambiguity : Type 0
  Ambiguity =
      (x : FixtureDescription) × (y : FixtureDescription) × (x ≢ y)
      × (encode_to_vec x ≡ encode_to_vec y)

  Bytes-discrete : Discrete Bytes
  Bytes-discrete = hlevel ℕ_discrete

  -- Equal digests come of equal bytes, but for a collision.
  pub hex_digest-cases :
      (x y : Bytes) → hex_encode (digest x) ≡ hex_encode (digest y) → (x ≡ y) ⊎ Collision
  hex_digest-cases x y e = elim (Bytes-discrete x y) [
    | yes same ↦ inl same
    | no differ ↦ inr (
      x,
      y,
      differ,
      hex_encode-injective (digest x) (digest y) (codec.digest-IsBytes x) (codec.digest-IsBytes y)
          e,
    )
  ]

  -- What `canonical_encoding` encodes, where the plugin has the bytes `b`.
  abbrev pub canonical : FixtureDescription → Bytes → FixtureDescription
  canonical d b = record d { name = ""; plugin = some (binary_path (hex_encode (digest b))) }

  abbrev pub fingerprint : FixtureDescription → Bytes → FixtureFingerprint
  fingerprint d b = record { text = hex_encode (digest (encode_to_vec (canonical d b))) }

  module _ (d e : FixtureDescription) (b c : Bytes) where
    pub SameIdentity-canonical : SameIdentity d e b c → canonical d b ≡ canonical e c
    SameIdentity-canonical h = cc (h.impl_id, h.inputs)

    canonical-SameIdentity : canonical d b ≡ canonical e c → b ≡ c → SameIdentity d e b c
    canonical-SameIdentity h p = record {
      impl_id = ap (λ (x : FixtureDescription). x.impl_id) h;
      inputs = ap (λ (x : FixtureDescription). x.inputs) h;
      image_inputs = ap (λ (x : FixtureDescription). x.image_inputs) h;
      file_inputs = ap (λ (x : FixtureDescription). x.file_inputs) h;
      sharing = ap (λ (x : FixtureDescription). x.sharing) h;
      startup_timeout_seconds = ap (λ (x : FixtureDescription). x.startup_timeout_seconds) h;
      plugin = p;
    }

    -- Where the hashes of the two plugins collide, a collision is found.
    canonical-cases : canonical d b ≡ canonical e c → SameIdentity d e b c ⊎ Collision
    canonical-cases described = pinned (hex_digest-cases b c hash)
      where
        hash : hex_encode (digest b) ≡ hex_encode (digest c)
        hash = cc (ap (λ (x : FixtureDescription). x.plugin) described)

        pinned : (b ≡ c) ⊎ Collision → SameIdentity d e b c ⊎ Collision
        pinned (inl p) = inl (canonical-SameIdentity described p)
        pinned (inr collision) = inr collision

    pub sound_with :
        (decode : Bytes → Option FixtureDescription)
        → decode (encode_to_vec (canonical d b)) ≡ some (canonical d b)
        → decode (encode_to_vec (canonical e c)) ≡ some (canonical e c)
        → (encode_to_vec (canonical d b) ≡ encode_to_vec (canonical e c)) ⊎ Collision
        → SameIdentity d e b c ⊎ Collision
    sound_with decode d_back e_back (inr collision) = inr collision
    sound_with decode d_back e_back (inl same) =
        canonical-cases (cc (d_back, e_back, ap decode same))

    widen : SameIdentity d e b c ⊎ Collision → SameIdentity d e b c ⊎ (Collision ⊎ Ambiguity)
    widen (inl same) = inl same
    widen (inr collision) = inr (inl collision)

    encoded-cases :
        (encode_to_vec (canonical d b) ≡ encode_to_vec (canonical e c)) ⊎ Collision
        → SameIdentity d e b c ⊎ (Collision ⊎ Ambiguity)
    encoded-cases (inr collision) = inr (inl collision)
    encoded-cases (inl same) = elim (FixtureDescription-discrete (canonical d b) (canonical e c)) [
      | yes described ↦ widen (canonical-cases described)
      | no differ ↦ inr (inr (canonical d b, canonical e c, differ, same))
    ]

    -- Descriptions with one fingerprint have one identity, but for a failing of the digest or of the
    -- encoding.
    pub fingerprint-SameIdentity :
        fingerprint d b ≡ fingerprint e c → SameIdentity d e b c ⊎ (Collision ⊎ Ambiguity)
    fingerprint-SameIdentity h =
        encoded-cases (hex_digest-cases _ _ (ap (λ (x : FixtureFingerprint). x.text) h))
