-- ===== src/Coordinator/ClientState.antt =====
-- internal/workers/coordinator/clientState.go: what a worker knows of one client. The tests and the
-- proofs are in the modules below.
mod Defs
pub mod Sorting
pub mod Counting
pub mod Totals
pub mod Eofs
pub mod Barrier
unfoldable pub use Defs.*
