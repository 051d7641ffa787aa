-- ===== src/Proto/Plugin.antt =====
-- The messages between the coordinator and a plugin, of src/proto/systemtestrs/src/lib.rs.
use rules_systemtest.Prelude.{String, Bool, List, Option}
use rules_systemtest.Prelude.Int.{ℤ}
use rules_systemtest.Proto.Data.{Bytes, BTreeMap, Value}

pub record DescribeResponse : Type 0 where
  pub impl_id : String
  pub version : String
  pub schemas : BTreeMap String String

pub record DescribeResponses : Type 0 where
  pub responses : List DescribeResponse

pub record CreationMetadata : Type 0 where
  pub fixture_id : String
  pub client_id : String
  pub owner : String
  pub labels : BTreeMap String String

pub record CreateRequest : Type 0 where
  pub impl_id : String
  pub inputs : BTreeMap String Value
  pub metadata : Option CreationMetadata

pub record ResourceAmount : Type 0 where
  pub name : String
  pub unit : String
  pub quantity : ℤ

pub record ResourcePool : Type 0 where
  pub pool_id : String
  pub resources : List ResourceAmount

pub record ResourceRequests : Type 0 where
  pub consumes : List ResourcePool

pub record FixtureElementStatusInfo : Type 0 where
  pub element_name : String
  pub status : ℤ
  pub messages : List String

pub record FixtureResult : Type 0 where
  pub outputs : BTreeMap String Value
  pub idle_timeout_seconds : ℤ
  pub instance_data : Bytes
  pub consumed : List ResourcePool

pub record CreateProgress : Type 0 where
  pub status : ℤ
  pub element_infos : List FixtureElementStatusInfo
  pub result : Option FixtureResult

pub record DestroyRequest : Type 0 where
  pub impl_id : String
  pub instance_data : Bytes

pub record DestroyResponse : Type 0 where

pub record HealthCheckRequest : Type 0 where
  pub impl_id : String
  pub instance_data : Bytes

pub record HealthCheckResponse : Type 0 where
  pub healthy : Bool
  pub message : String
