-- ===== src/Coordinator/Storage.antt =====
-- internal/workers/coordinator/batchstorage.go: the three logs of a coordinator.
mod Format
pub mod Splitting
pub mod RoundTrip
pub mod Operations
unfoldable pub use Format.*
