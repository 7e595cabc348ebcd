-- ===== src/Leader.antt =====
-- internal/fault_hypervisor/leader: the bully election among the fault hypervisors.
pub mod Defs
pub mod Peers
pub mod Terms
pub mod Stuck
mod Samples
