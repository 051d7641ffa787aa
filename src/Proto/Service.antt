-- ===== src/Proto/Service.antt =====
-- The messages between the runner and the coordinator, of src/proto/systemtestrs/src/lib.rs.
use rules_systemtest.Prelude.{ℕ, String, List, Option}
use rules_systemtest.Prelude.Int.{ℤ}
use rules_systemtest.Proto.Data.{BTreeMap, Value, FixtureDescription}

pub record TakeLeaseRequest : Type 0 where
  pub fixture : Option FixtureDescription
  pub client_id : String
  pub owner : String
  pub ttl_seconds : ℤ
  pub associated_tests_count : ℕ

pub record TakeLeaseResponse : Type 0 where
  pub status : ℤ
  pub lease_id : String
  pub outputs : BTreeMap String Value
  pub messages : List String

pub record KeepaliveRequest : Type 0 where
  pub lease_id : String

pub record KeepaliveResponse : Type 0 where

pub record ReleaseRequest : Type 0 where
  pub lease_id : String

pub record ReleaseResponse : Type 0 where

pub record StatusRequest : Type 0 where
  pub lease_id : String

pub record StatusResponse : Type 0 where
  pub status : ℤ
  pub outputs : BTreeMap String Value
  pub messages : List String
