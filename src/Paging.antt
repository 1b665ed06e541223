-- ===== src/Paging.antt =====
-- source/arch/amd64/kernel/xeret/mem/paging.c and arch/amd64/include/paging.h: page tables, the
-- address spaces of the owners, and the records of what is mapped in them.
pub mod Tables
pub mod Boot
pub mod Spaces
pub mod Quiet
pub mod Pins
pub mod Repin
pub mod Coherent
pub mod Record
pub mod Laws
pub mod Cleared
pub mod Drops
pub mod Revoke
pub mod Create
pub mod Destroy
pub mod Walk
