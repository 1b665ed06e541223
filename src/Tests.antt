-- ===== src/Tests.antt =====
-- Runs of the models on concrete states.
pub mod Physical
pub mod Ledger
pub mod Sys
pub mod Spaces
pub mod Exb
pub mod Keyboard
pub mod Loader
pub mod Process
pub mod Portable
pub mod Exfs
pub mod Extents
