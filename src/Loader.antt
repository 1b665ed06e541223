-- ===== src/Loader.antt =====
-- source/core/exb/load.c over the backend interface of kerncall/include/xload_backend.h, and the
-- backend of the kernel, source/arch/amd64/kernel/xeret/load_amd64.c.
pub mod Load
pub mod Amd64
pub mod Held
pub mod Mapping
pub mod Unmap
pub mod Undo
pub mod Place
pub mod Segments
pub mod Laws
