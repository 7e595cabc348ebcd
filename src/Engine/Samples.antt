-- ===== src/Engine/Samples.antt =====
-- Both engines at small examples.
mod Filter
mod Keeper
mod Restart
