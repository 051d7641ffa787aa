-- ===== src/Fixture.antt =====
-- Fixtures, their identity and the coordinator's record of one: src/coordinator/src/fixture.rs.
mod Hex
pub mod Canonical
pub mod Identity
unfoldable pub use Hex.{hex_encode}
pub use Hex.{IsBytes, hex_encode-injective}
use Prim.Native.String.{◌++◌}
use rules_systemtest.Prelude.{
  String, ◌≡◌, ◌↔◌, Bool, true, Option, none, some, arith, Equality, ◌==◌, string_eq,
}
use rules_systemtest.Prelude.Int.{ℤ}
use rules_systemtest.Io.{Io, pure, context, ◌>>=◌}
use rules_systemtest.Os.{Os}
use rules_systemtest.Proto.{
  Bytes, BTreeMap, Value, Sharing, FixtureDescription, FixturePlugin, binary_path, container_ref,
}

pub record FixtureId : Type 0 where
  pub text : String

unfoldable pub random : String → FixtureId
random uuid = record { text = uuid }

unfoldable pub into_string : FixtureId → String
into_string id = id.text

pub record FixtureFingerprint : Type 0 where
  pub text : String

abbrev pub fingerprint_beq : FixtureFingerprint → FixtureFingerprint → Bool
fingerprint_beq a b = a.text == b.text

pub fingerprint_beq_iff : (a b : FixtureFingerprint) → (fingerprint_beq a b ≡ true) ↔ (a ≡ b)
fingerprint_beq_iff a b = ground (arith, string_eq.beq_iff a.text b.text)

instance abbrev pub fingerprint_eq : Equality FixtureFingerprint
fingerprint_eq = record { beq = fingerprint_beq; beq_iff = fingerprint_beq_iff }

-- What fixture.rs takes from the crates sha2 and prost.
pub record Codec : Type 0 where
  pub digest : Bytes → Bytes
  pub encode_to_vec : FixtureDescription → Bytes
  -- A digest consists of bytes.
  pub digest-IsBytes : (b : Bytes) → IsBytes (digest b)

module _ (os : Os) (codec : Codec) where
  open os use {World, read}
  open codec use {digest, encode_to_vec}

  unfoldable pub hash_plugin_binary : String → Io World String
  hash_plugin_binary path = do
    bytes ← context (read path) ("reading plugin binary at " ++ path)
    pure (hex_encode (digest bytes))

  -- The `if let` of `canonical_encoding`.
  unfoldable pub pin_plugin : Option FixturePlugin → String → Io World (Option FixturePlugin)
  unfolding hash_plugin_binary
  pin_plugin (some (binary_path p)) plugin_binary_path = do
    hash ← hash_plugin_binary plugin_binary_path
    pure (some (binary_path hash))
  pin_plugin (some (container_ref r)) plugin_binary_path = pure (some (container_ref r))
  pin_plugin none plugin_binary_path = pure none

  unfoldable pub canonical_encoding : FixtureDescription → String → Io World Bytes
  unfolding pin_plugin
  canonical_encoding desc plugin_binary_path = do
    plugin ← pin_plugin desc.plugin plugin_binary_path
    pure (encode_to_vec (record desc { name = ""; plugin = plugin }))

  -- `FixtureFingerprint::compute`
  unfoldable pub compute : FixtureDescription → String → Io World FixtureFingerprint
  unfolding canonical_encoding
  compute desc plugin_binary_path = do
    encoded ← canonical_encoding desc plugin_binary_path
    pure (record { text = hex_encode (digest encoded) })

-- The record keeps the plugin process that serves the fixture.
pub record FixtureRecord (P : Type 0) : Type 0 where
  pub outputs : BTreeMap String Value
  pub sharing : Sharing
  pub creating_client_id : String
  pub used_slots : ℤ
  pub plugin : P
