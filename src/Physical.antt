-- ===== src/Physical.antt =====
-- source/arch/amd64/kernel/xeret/mem/physical.c: the bitmap of 4 KiB physical frames, with the
-- constants and the state of source/kerncall/include/kmemory.h.
-- The children hold the state and the operations, and the proofs about them.
pub mod State
pub mod Alloc
pub mod Range
pub mod Counts
pub mod Scan
pub mod Laws
pub mod Huge
pub mod Contract
pub mod Init
pub mod Reserve
pub mod Boot
