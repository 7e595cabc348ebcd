-- ===== src/Engine.antt =====
-- internal/workers/engine, with the senders (internal/workers/sender) and the events
-- (internal/workers/receiver) that the engines use.
pub mod Sender
pub mod Events
pub mod Stateless
pub mod Stateful
pub mod Samples
