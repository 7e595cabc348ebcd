-- ===== src/Engine/Stateful.antt =====
-- internal/workers/engine/statefulengine.go: the engine of the groupers, aggregators and joiners, over
-- the checkpoint manager and any processor, coordinator and sender.
pub mod Defs
pub mod Durable
pub mod Acks
