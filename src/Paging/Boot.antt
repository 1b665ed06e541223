-- ===== src/Paging/Boot.antt =====
-- The kernel's own mappings in paging.c: the identity map, the window for device registers, and the
-- protections of the processor. What `cpuid` returns is a parameter.
use xasmos.Base.{
  ℕ, zero, suc, ◌+◌, ◌-◌, ◌*◌, ◌/◌, ◌%◌, ◌^◌, Bool, true, false, not, ◌&&◌, ◌||◌, Option, none,
  some, ltb, leb, ◌==◌, if◌then◌else◌, add64, sub64, bit_and, bit_or,
}
use xasmos.Physical.State.{frame_size}
use xasmos.Ledger.Ops.{Kernel}
use xasmos.Paging.Tables.{
  xpt_kernel_rw, xpt_global, xpt_uc, xpt_nx, xpt_huge, is_present, is_huge, entry_addr, huge_addr,
  entry, set_entry, index4, index3, index2, index1, alloc_zero_table, next_level,
}

abbrev pub huge_size : ℕ
huge_size = 2 ^ 21

abbrev pub four_gib : ℕ
four_gib = 2 ^ 32

abbrev pub pml4_span : ℕ
pml4_span = 2 ^ 39

abbrev pub mmio_base : ℕ
mmio_base = 0xC0000000

abbrev pub mmio_pml4 : ℕ
mmio_pml4 = 384

abbrev pub mmio_va : ℕ
mmio_va = 0xFFFFC00000000000

abbrev pub mmio_max_pages : ℕ
mmio_max_pages = 4096

-- v & ~(a - 1), for a power of two `a`
abbrev pub align_down : ℕ → ℕ → ℕ
align_down v a = v / a * a

abbrev pub align_up : ℕ → ℕ → ℕ
align_up v a = add64 v (a - 1) / a * a

-- The registers of the processor that paging.c writes.
pub record Cpu : Type 0 where
  pub efer : ℕ
  pub cr0 : ℕ
  pub cr3 : ℕ
  pub cr4 : ℕ

-- eax, ebx and edx of a leaf.
pub record CpuId : Type 0 where
  pub eax : ℕ
  pub ebx : ℕ
  pub edx : ℕ

abbrev pub xprot_nx : ℕ
xprot_nx = 1

abbrev pub xprot_wp : ℕ
xprot_wp = 2

abbrev pub xprot_smep : ℕ
xprot_smep = 4

-- The protections that were switched on, and the registers; `none` is the result -1.
unfoldable pub enable_protections : (ℕ → CpuId) → Cpu → Option (ℕ × Cpu)
enable_protections cpuid c =
    let nx = record c { efer = bit_or c.efer (2 ^ 11); cr0 = bit_or c.cr0 (2 ^ 16) } in
    let smep = record nx { cr4 = bit_or c.cr4 (2 ^ 20) } in
    let has_smep = leb 7 (cpuid 0).eax && not (bit_and (cpuid 7).ebx (2 ^ 7) == 0) in
    if ltb (cpuid 0x80000000).eax 0x80000001
    then none
    else if bit_and (cpuid 0x80000001).edx (2 ^ 20) == 0
    then none
    else if has_smep
    then some (xprot_nx + xprot_wp + xprot_smep, smep)
    else some (xprot_nx + xprot_wp, nx)

-- One round of `map_huge`: whether it succeeded.
unfoldable pub map_huge_page : ℕ → ℕ → ℕ → Kernel → Bool × Kernel
map_huge_page pml4 a flags k =
    let (pdpt, k1) = next_level pml4 (index4 a) xpt_kernel_rw k in
    let (pd, k2) = next_level pdpt (index3 a) xpt_kernel_rw k1 in
    if pdpt == 0
    then (false, k1)
    else if pd == 0
    then (false, k2)
    else if is_present (entry k2 pd (index2 a))
    then (true, k2)
    else (true, set_entry pd (index2 a) (huge_addr a + flags + xpt_huge) k2)

-- for (a = ...; a < end; a += XERET_HUGE_SIZE), with a bound on the rounds; `none` means that the
-- bound was too small.
unfoldable pub map_huge_from : ℕ → ℕ → ℕ → ℕ → ℕ → Kernel → Option (Bool × Kernel)
map_huge_from zero pml4 a end flags k = none
map_huge_from (suc rounds) pml4 a end flags k =
    let (mapped, k') = map_huge_page pml4 a flags k in
    let rest = map_huge_from rounds pml4 (add64 a huge_size) end flags k' in
    if ltb a end then (if mapped then rest else some (false, k')) else some (true, k)

-- Every range that is mapped ends at or below 512 GiB.
unfoldable pub map_huge : ℕ → ℕ → ℕ → ℕ → Kernel → Option (Bool × Kernel)
map_huge pml4 start end flags k =
    map_huge_from (pml4_span / huge_size + 1) pml4 (align_down start huge_size) end flags k

-- A range to map, with its flags.
pub record Region : Type 0 where
  pub start : ℕ
  pub end : ℕ
  pub flags : ℕ
  pub wanted : Bool

-- The ranges one after the other, until one fails.
unfoldable pub then_region : ℕ → Region → Option (Bool × Kernel) → Option (Bool × Kernel)
then_region pml4 r none = none
then_region pml4 r (some (false, k)) = some (false, k)
then_region pml4 r (some (true, k)) =
    if r.wanted then map_huge pml4 r.start r.end r.flags k else some (true, k)

-- The four ranges of the identity map, in the order in which they are mapped.
unfoldable pub identity_regions : ℕ → ℕ → ℕ → Kernel → ℕ → Option (Bool × Kernel)
identity_regions phys_end extra_base extra_size k pml4 =
    let ram = xpt_kernel_rw + xpt_global in
    let uncached = ram + xpt_uc in
    let low_end = if ltb phys_end mmio_base then phys_end else mmio_base in
    then_region pml4
      (record {
        start = four_gib;
        end = align_up phys_end huge_size;
        flags = ram;
        wanted = ltb four_gib phys_end;
      })
      (then_region pml4
        (record { start = 0; end = align_up low_end huge_size; flags = ram; wanted = true })
        (then_region pml4
          (record {
            start = extra_base;
            end = add64 extra_base extra_size;
            flags = uncached;
            wanted = not (extra_size == 0);
          })
          (map_huge pml4 mmio_base four_gib uncached k)))

-- `g_pml4_phys`, `g_prot` and `g_mmio_next` with the registers, or the result -1, which shows only
-- the memory.
pub data IdentityResult : Type 0 where
  failed : Kernel → IdentityResult
  ready : ℕ → ℕ → ℕ → Cpu → Kernel → IdentityResult
  out_of_rounds : IdentityResult

-- The last steps: the table of the device window, and the load of cr3.
unfoldable pub finish_identity : ℕ → ℕ → Cpu → Option (Bool × Kernel) → IdentityResult
finish_identity pml4 prot c none = out_of_rounds
finish_identity pml4 prot c (some (false, k)) = failed k
finish_identity pml4 prot c (some (true, k)) =
    let (window, k') = next_level pml4 mmio_pml4 xpt_kernel_rw k in
    if window == 0 then failed k' else ready pml4 prot mmio_va (record c { cr3 = pml4 }) k'

unfoldable pub build_identity : ℕ → ℕ → ℕ → Kernel → Option (ℕ × Cpu) → IdentityResult
build_identity phys_end extra_base extra_size k none = failed k
build_identity phys_end extra_base extra_size k (some (prot, c)) =
    let (pml4, k') = alloc_zero_table k in
    if pml4 == 0
    then failed k'
    else finish_identity pml4 prot c (identity_regions phys_end extra_base extra_size k' pml4)

unfoldable pub xpt_init_identity : (ℕ → CpuId) → ℕ → ℕ → ℕ → Cpu → Kernel → IdentityResult
xpt_init_identity cpuid phys_end extra_base extra_size c k =
    if phys_end == 0
    then failed k
    else if ltb pml4_span (align_up phys_end huge_size)
    then failed k
    else if not (extra_size == 0)
        && (ltb pml4_span (add64 extra_base extra_size)
            || ltb (add64 extra_base extra_size) extra_base)
    then failed k
    else build_identity phys_end extra_base extra_size k (enable_protections cpuid c)

-- `none` is the result -1. `pml4` is `g_pml4_phys`.
unfoldable pub xpt_translate : ℕ → ℕ → Kernel → Option ℕ
xpt_translate pml4 virt k =
    let e4 = entry k pml4 (index4 virt) in
    let e3 = entry k (entry_addr e4) (index3 virt) in
    let e2 = entry k (entry_addr e3) (index2 virt) in
    if pml4 == 0
    then none
    else if not (is_present e4)
    then none
    else if not (is_present e3)
    then none
    else if not (is_present e2) || not (is_huge e2)
    then none
    else some (huge_addr e2 + virt % huge_size)

unfoldable pub xpt_attributes : ℕ → ℕ → Kernel → Option ℕ
xpt_attributes pml4 virt k =
    let e4 = entry k pml4 (index4 virt) in
    let e3 = entry k (entry_addr e4) (index3 virt) in
    let e2 = entry k (entry_addr e3) (index2 virt) in
    let e1 = entry k (entry_addr e2) (index1 virt) in
    if pml4 == 0
    then none
    else if not (is_present e4)
    then none
    else if not (is_present e3)
    then none
    else if not (is_present e2)
    then none
    else if is_huge e2
    then some e2
    else if is_present e1
    then some e1
    else none

-- One round of the loop of `xpt_map_uncached`.
unfoldable pub map_device_page : ℕ → ℕ → ℕ → Kernel → Bool × Kernel
map_device_page pdpt va pa k =
    let (pd, k1) = next_level pdpt (index3 va) xpt_kernel_rw k in
    let (pt, k2) = next_level pd (index2 va) xpt_kernel_rw k1 in
    if pd == 0
    then (false, k1)
    else if pt == 0
    then (false, k2)
    else if is_present (entry k2 pt (index1 va))
    then (false, k2)
    else (
      true,
      set_entry pt (index1 va) (entry_addr pa + (xpt_kernel_rw + xpt_global + xpt_uc + xpt_nx)) k2,
    )

unfoldable pub map_device_pages : ℕ → ℕ → ℕ → ℕ → ℕ → Kernel → Bool × Kernel
map_device_pages zero i pdpt base start k = (true, k)
map_device_pages (suc n) i pdpt base start k =
    let (mapped, k') =
      map_device_page pdpt (add64 base (i * frame_size)) (add64 start (i * frame_size)) k in
    let rest = map_device_pages n (i + 1) pdpt base start k' in if mapped then rest else (false, k')

-- The virtual address, if the call succeeded, with `g_mmio_next` and the kernel afterwards.
unfoldable pub xpt_map_uncached : ℕ → ℕ → ℕ → ℕ → Kernel → Option ℕ × ℕ × Kernel
xpt_map_uncached phys size pml4 mmio_next k =
    let start = align_down phys frame_size in
    let end = align_up (add64 phys size) frame_size in
    let pages = sub64 end start / frame_size in
    let next = add64 mmio_next (pages * frame_size) in
    let pdpt = entry_addr (entry k pml4 mmio_pml4) in
    let (mapped, k') = map_device_pages pages 0 pdpt mmio_next start k in
    if (pml4 == 0) || (size == 0)
    then (none, mmio_next, k)
    else if ltb (add64 phys size) phys
    then (none, mmio_next, k)
    else if (pages == 0) || ltb mmio_max_pages pages
    then (none, mmio_next, k)
    else if ltb next mmio_next || ltb (mmio_va + pml4_span) next
    then (none, mmio_next, k)
    else if mapped
    then (some (mmio_next + (phys - start)), next, k')
    else (none, mmio_next, k')
