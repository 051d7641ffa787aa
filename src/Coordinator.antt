-- ===== src/Coordinator.antt =====
-- The in-memory coordinator: src/coordinator/src/coordinator.rs. Its state, the helpers and the
-- four handlers of `CoordinatorService` are in the private children, proofs in the others.
mod Memory
mod Slots
mod TakeLease
mod Leases
pub mod Updates
pub mod Invariant
pub mod Reuse
pub mod Step
pub mod Cases
pub mod Preserved
pub mod Accounting
pub mod Service
pub mod Remote
pub mod Bounds
pub mod Replaced
pub mod Replies
pub mod Release
pub mod Provision
pub mod Refusals
pub mod Race
pub mod Processes
pub mod NotProvisioned
pub mod Failures
pub mod Grants
pub mod Sharing
pub mod Effects
pub mod Granted
pub mod Lasting
pub mod Stable
pub mod Order
pub mod Ledger
pub mod Simulation
pub mod Stored
pub mod Calls
unfoldable pub use Memory.*
unfoldable pub use Slots.*
unfoldable pub use TakeLease.*
unfoldable pub use Leases.*
