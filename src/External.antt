-- ===== src/External.antt =====
-- internal/common/external: the messages between a client and its gateway, as bytes on a connection.
pub mod Serializer
pub mod Socket
pub mod Defs
pub mod Reads
pub mod Batches
pub mod Results
pub mod Fields
pub mod Delivered
mod Samples
