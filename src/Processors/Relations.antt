-- ===== src/Processors/Relations.antt =====
-- groupers/origindestination: the accounts that an account has sent to, or has received from.
pub mod Defs
pub mod Views
mod Logging
pub mod Replay
pub mod Gathered
pub mod Groups
