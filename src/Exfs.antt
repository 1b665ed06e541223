-- ===== src/Exfs.antt =====
-- source/core/exfs: the file system on disk: its superblock (sb.c), its map of free blocks (gmap.c),
-- and its inodes, extents and commits (exfs.c).
pub mod Format
pub mod Superblock
pub mod GroupMap
pub mod GroupOps
pub mod Volume
pub mod Pool
pub mod Inodes
pub mod Names
pub mod Listing
pub mod Runs
pub mod Write
pub mod WriteAt
pub mod Read
pub mod Commit
pub mod Mount
pub mod Lifecycle
