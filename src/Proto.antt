-- ===== src/Proto.antt =====
-- The protobuf messages of proto/systemtest.proto, as the structs and enums that
-- src/proto/systemtestrs/src/lib.rs declares for them. A byte is a number, a `BTreeMap` the list of
-- its entries in key order, and a field of an enumeration type the i32 that the wire holds.
mod Data
mod Enums
mod Service
mod Plugin
pub mod Names
pub use Data.*
unfoldable pub use Enums.*
pub use Service.*
pub use Plugin.*
