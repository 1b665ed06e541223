-- ===== src/Block.antt =====
-- source/core/blk: the block device interface (blk.c) and the RAM disk behind it (ramdisk.c).
pub mod Device
pub mod Ramdisk
pub mod Laws
