-- ===== src/Processors/MaxBank.antt =====
-- groupers/maxbank: the greatest transfer and the name of every bank.
pub mod Store
pub mod Defs
pub mod Views
mod Changes
mod Logging
pub mod Replay
pub mod Order
pub mod Greatest
