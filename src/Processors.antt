-- ===== src/Processors.antt =====
-- internal/workers/processor: the processors, which a worker runs on the items of its clients.
pub mod Model
pub mod Loops
pub mod Journal
pub mod Dirty
pub mod MaxBank
pub mod Relations
pub mod Conversions
pub mod MaxBankJoin
pub mod Samples
