-- ===== src/Processors/Conversions.antt =====
-- joiners/conversionjoin: how many converted amounts a client has.
pub mod Defs
mod Synced
pub mod Counted
