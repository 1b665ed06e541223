-- ===== src/Exfs/Lifecycle.antt =====
-- source/core/exfs/exfs.c: the calls of the file system together, over the life of a volume.
pub mod Same
pub mod Writes
pub mod Splices
pub mod Calls
