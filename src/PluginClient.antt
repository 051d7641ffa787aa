-- ===== src/PluginClient.antt =====
-- The child process of a plugin and the calls to it: src/coordinator/src/plugin_client.rs.
mod Create
mod Connect
mod Process
pub mod Drains
pub mod Connects
pub mod Abandons
pub mod Spawns
pub mod InTime
pub mod Remote
unfoldable pub use Create.*
unfoldable pub use Connect.*
unfoldable pub use Process.*
