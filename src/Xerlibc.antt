-- ===== src/Xerlibc.antt =====
-- source/core/xerlibc/src: the freestanding C library. Memory is one function from addresses to
-- bytes, so that two pointers may name the same bytes.
pub mod Memory
pub mod Strings
pub mod Numbers
