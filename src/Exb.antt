-- ===== src/Exb.antt =====
-- source/core/exb/exb.c and kerncall/include/exb.h: the validator of .exb images.
pub mod Image
pub mod Parse
pub mod Segments
pub mod Accepted
pub mod Caps
pub mod Safe
