-- ===== src/Ledger.antt =====
-- source/arch/amd64/kernel/xeret/mem/token_ledger.c and kerncall/include/capability.h: the table of
-- hardware tokens, over the frame allocator of `Physical`.
-- The children hold the table and the operations, and the proofs about them.
pub mod Table
pub mod Ops
pub mod Inv
pub mod Seal
pub mod Sound
pub mod Alloc
pub mod Grant
pub mod Release
pub mod Stale
pub mod Pin
