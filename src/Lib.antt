-- ===== src/Lib.antt =====
-- XASMOS, an exokernel for amd64: the parts of it that decide who owns memory, and what may be
-- loaded into it.
--
-- An application holds memory only through tokens. The frame allocator
-- (source/arch/amd64/kernel/xeret/mem/physical.c) hands out runs of 4 KiB frames from a bitmap, and
-- runs of 512 of them on 2 MiB boundaries. The token ledger (mem/token_ledger.c) seals such a run
-- into a slot of a table of 4096 and returns a token: the slot and its generation. Releasing a token
-- bumps the generation, so that old copies of it are stale. A pin (`xtok_map_acquire`) keeps a token
-- from being released while it is mapped. The address spaces (mem/paging.c) map the frames of a
-- token under such a pin and keep a record of each mapping. The resource syscalls (sys.c) check the
-- quota of the caller and call the ledger and the address spaces; a program in ring 3 reaches them by
-- traps (proc.c). The validator of executables (source/core/exb/exb.c) decides which images the loader
-- (core/exb/load.c) maps into an address space.
--
-- Base holds the Boolean tests, the wrap-around of words, arrays as functions of the index, sums
-- over the first cells, and counting loops. Bitmap holds the byte-array bitmap idiom and the count
-- of its set bits.
--
-- Physical models mem/physical.c with kerncall/include/kmemory.h and the boot structures of
-- boot/exord/efi/efi_types.h: State and Alloc hold the bitmap and the operations on it, Init the boot
-- path. `PhysBitmap` is `g_phys` with the bytes of `g_bitmap_storage`. The loops run for as many
-- rounds as the C condition gives; `scan_huge` and the walk over the memory map have a bound on the
-- rounds: one more than the frames, since each round moves on by a frame at least, and one more than
-- the bytes of the map, since each descriptor has a byte at least. The memory map is firmware data: a
-- function from byte offsets to descriptors. Addresses are 64-bit: sums and shifts wrap where the C
-- code's do.
--
-- Ledger models mem/token_ledger.c with kerncall/include/capability.h: Table holds the table and the
-- functions that run under `g_lock`, Ops the operations over the ledger, the bitmap and physical
-- memory as 64-bit words (`Kernel`). Sound states the invariant that ties the three together.
--
-- Paging models mem/paging.c with arch/amd64/include/paging.h over the same kernel state: Tables holds
-- the page tables as words of memory, Boot the identity map and the device window, Spaces the address
-- spaces and `g_maps`, the records of what is mapped (`Vm`). The range that `map_huge` walks ends at
-- 512 GiB at the latest, so it has one round more than there are 2 MiB pages below that. What `cpuid`
-- returns is a parameter. Cleared states what an unmapping leaves in the tables, Walk what a mapping
-- adds: there `lvl` gives each frame of a page table its level.
--
-- Sys models sys.c: Calls holds the quotas, `sys_alloc`, `sys_free`, `sys_info` and `xlb_quota_ok` of
-- load_amd64.c, Spaces the calls over address spaces and `xproc_reap`. A syscall's reply is what it
-- leaves in rax and rdx. The loop of `xproc_reap` has 4098 rounds: each but the last reclaims a token,
-- and the table has 4096. Reach holds the calls as steps.
--
-- Exb models core/exb/exb.c with kerncall/include/exb.h: Image holds the format and the checksum,
-- Parse the validator. An image is a function from offsets to bytes. `parse_impl` returns a result;
-- `exb_parse` zeroes the output on failure, so what a failing `parse_impl` wrote does not appear.
--
-- Loader models core/exb/load.c: Load is the loader over a record of the operations that
-- kerncall/include/xload_backend.h asks of an architecture, Amd64 the kernel's own
-- (arch/amd64/kernel/xeret/load_amd64.c). A segment and the stack take the same steps, so `place` stands
-- for both; the lists of a transaction have their latest entry first. The result structure is never
-- null. What `exb_parse` finds in the uninitialised `ExbInfo` is a parameter.
--
-- Block models core/blk: Device holds the checks and the dispatch of blk.c over a driver's table of
-- operations and its state, Ramdisk the RAM disk of ramdisk.c. Registry models core/dev/dev.c over a
-- table of eight slots.
--
-- Exfs models core/exfs: Superblock and Format sb.c, GroupMap and GroupOps the map of free blocks
-- (gmap.c), the other modules the file system itself (exfs.c). The device is part of the state of the
-- group map, since its writes go through blk.c. `Volume` is `V`: the group map with the device, the
-- counters of the mounted volume, and `Nodes`, which holds the files, the pool of extent slots and the
-- list of deferred blocks. Pool models the slices of the pool that the files own, Inodes the records
-- of the inode table, Names the names with create, delete and stat, Listing the directory listing,
-- Runs the taking of fresh blocks and the staged extent list of a write, Write and WriteAt the two
-- writes, Read the read, Commit the commit in its steps, Mount the mount and the format, Lifecycle
-- the calls as steps. A caller's name is a list of bytes with no zero in it. What an uninitialised
-- local array holds is a parameter, `junk`. Rounds of the loops: the capacity of a slice doubles at
-- most 28 times up to the size of the pool, a chain of extent blocks is walked for 17 blocks, a read
-- takes a byte at least in each round.
--
-- Process models the hooks of arch/amd64/kernel/xeret/proc.c: the traps of a program in ring 3 and the
-- interrupts. A program is the list of its traps and of the interrupts that meet it, with the registers
-- that it has at each, up to the tick that preempts it;
-- the numbers of the resource syscalls go on to Sys.
--
-- Keyboard models arch/amd64/kernel/xeret/kbd.c: the scan codes with their prefixes, and in Line
-- the line editor `xk_readline` over the characters that arrive. What the controller answers is a list.
-- `xk_pollkey` reads it at most 64 times, as the code does.
--
-- Xerlibc models core/xerlibc/src: mem.c and str.c over one memory of bytes, where two pointers may
-- name the same bytes, and fmt.c as the list of the characters written. A loop that runs to a zero
-- byte has a bound on its rounds.
--
-- Superdir models arch/amd64/syslib/core/path.c, and Xqueue the command ring of
-- arch/amd64/syslib/core/xqueue.c, as a producer and a consumer that take turns.
--
-- Tests runs the theorems on concrete states: a bitmap of eight frames, a kernel with one token, an
-- image of one hundred bytes, a ring with one command, a RAM disk of four sectors, a file system volume
-- of 64 blocks, and a pool of extents with two slices.
--
-- The spinlocks are not modelled: the sections that they guard run one at a time, and an operation's
-- sections run one after the other, with nothing between them. Writes of programs to their own frames
-- and the TLB are not modelled. Nor are the switch into ring 3, the trap tables, the other device
-- drivers, the boot loader and the shell. What `xas_destroy` frees is not stated, and the calls of
-- Sys.Reach leave it out: for that each table frame needs an owner. Of a load, the mapping records are
-- stated, not the contents of the frames. Of EXFS, what a commit writes to the device, the bytes that
-- a read returns after a write, and what a mount finds after a commit, are not stated.
pub mod Base
pub mod Bitmap
pub mod Block
pub mod Exb
pub mod Exfs
pub mod Keyboard
pub mod Ledger
pub mod Loader
pub mod Paging
pub mod Physical
pub mod Process
pub mod Registry
pub mod Superdir
pub mod Sys
pub mod Tests
pub mod Xerlibc
pub mod Xqueue
