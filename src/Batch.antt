-- ===== src/Batch.antt =====
-- internal/common/batch/batch.go and Batcher.go: items are gathered up to a weight and handed to a
-- callback under a numbered name. Weights are unbounded numbers; a slice is a value.
pub mod Defs
pub mod Contents
pub mod Weights
pub mod Names
mod Samples
