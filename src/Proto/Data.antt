-- ===== src/Proto/Data.antt =====
-- The common data model of src/proto/systemtestrs/src/lib.rs: values, sharing policies and fixture
-- descriptions.
use rules_systemtest.Prelude.{ℕ, String, List, Option}
use rules_systemtest.Prelude.Int.{ℤ}

abbrev pub Bytes : Type 0
Bytes = List ℕ

abbrev pub BTreeMap : Type 0 → Type 0 → Type 0
BTreeMap K V = List (K × V)

pub record SchemaBlob : Type 0 where
  pub schema_id : String
  pub contents : Bytes

-- `value::Value`
pub data ValueKind : Type 0 where
  str : String → ValueKind
  raw_data : Bytes → ValueKind
  schema_blob : SchemaBlob → ValueKind
  int_value : ℤ → ValueKind

pub record Value : Type 0 where
  pub value : Option ValueKind

pub record Empty : Type 0 where

-- `sharing::UseScope`
pub data UseScope : Type 0 where
  unrestricted client_restricted single_use : Empty → UseScope

pub record Sharing : Type 0 where
  pub maximum_concurrent_connections : ℤ
  pub use_scope : Option UseScope

-- `fixture_description::Plugin`
pub data FixturePlugin : Type 0 where
  binary_path container_ref : String → FixturePlugin

pub record FixtureDescription : Type 0 where
  pub impl_id : String
  pub inputs : BTreeMap String Value
  pub image_inputs : List String
  pub file_inputs : List String
  pub sharing : Option Sharing
  pub startup_timeout_seconds : ℤ
  pub name : String
  pub plugin : Option FixturePlugin
