-- ===== src/Sys.antt =====
-- source/arch/amd64/kernel/xeret/sys.c: quotas and the resource syscalls over the ledger.
pub mod Calls
pub mod Spaces
pub mod Coherent
pub mod Reap
pub mod Reclaim
pub mod Reach
pub mod Usage
pub mod Laws
