-- ===== src/Engine/Stateless.antt =====
-- internal/workers/engine/statelessengine.go: the engine of the filters, mappers and routers, over the
-- coordinator's model and a SingleSender.
pub mod Defs
pub mod Apart
pub mod Acks
pub mod Sent
pub mod Results
pub mod Serving
pub mod Lasting
