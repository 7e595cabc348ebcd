-- ===== src/Coordinator.antt =====
-- internal/workers/coordinator: the barrier by which the workers of one stage agree that all rows of
-- a client have been processed.
pub mod ClientState
pub mod World
pub mod Storage
pub mod Protocol
pub mod Samples
