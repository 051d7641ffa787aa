-- ===== src/Tests.antt =====
-- Concrete inputs, and the theorems of the other modules at them.
mod Machine
mod Scenes
mod PluginClient
mod Fixture
mod Coordinator
mod Stable
mod Daemon
mod Dummy
mod TakeLease
mod Grants
mod Packets
mod Wire
mod Rpc
mod Stub
mod Provided
mod System
mod Calls
mod Proto
