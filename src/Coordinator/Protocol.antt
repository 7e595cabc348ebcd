-- ===== src/Coordinator/Protocol.antt =====
-- internal/workers/coordinator/eofcoordinator.go: the coordinator's operations and message handlers,
-- and what they keep.
mod Sending
pub mod Moving
mod Defs
pub mod Quiet
pub mod Flushing
pub mod Once
pub mod Lifetime
mod Fine
pub mod Settling
pub mod Settled
pub mod Calm
mod Steps
mod Restore
pub mod Restored
mod LogShapes
pub mod Recovery
pub mod Synced
mod Written
pub mod Safe
pub mod Noting
pub mod Surviving
pub mod Recalled
mod Writable
mod Rewriting
mod Cleared
pub mod Forgotten
pub mod Telling
mod QuietSteps
pub mod Keeping
pub mod Noted
unfoldable pub use Sending.*
unfoldable pub use Defs.*
unfoldable pub use Steps.*
unfoldable pub use Restore.*
