-- ===== src/Processors/MaxBankJoin.antt =====
-- joiners/maxbankjoin: the bank maxima of all groupers, gathered for each client.
pub mod Defs
pub mod Replayed
