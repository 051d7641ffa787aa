-- ===== src/Rpc.antt =====
-- The gRPC clients and servers that src/proto/systemtestrs/src/lib.rs has for the two services, over
-- tonic as a parameter.
pub mod Tonic
pub mod Calls
pub mod CoordinatorClient
pub mod CoordinatorServer
pub mod PluginClient
pub mod PluginServer
pub mod Carried
pub mod CoordinatorCarried
pub mod PluginCarried
