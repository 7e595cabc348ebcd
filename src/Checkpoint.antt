-- ===== src/Checkpoint.antt =====
-- internal/workers/checkpoint: a worker logs the batches that it has processed before it acks them.
pub mod Line
pub mod Parsing
pub mod Defs
pub mod Replay
pub mod Steps
mod Appending
mod Persisting
pub mod Once
pub mod Logged
mod Noted
pub mod Covered
pub mod Durable
pub mod Aborted
pub mod Reloaded
pub mod Samples
