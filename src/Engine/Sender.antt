-- ===== src/Engine/Sender.antt =====
-- internal/workers/sender/singlesender.go: one batcher per client before one output.
pub mod Defs
pub mod Rows
pub mod Clients
mod Closing
unfoldable pub use Defs.*
