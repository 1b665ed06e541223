-- ===== src/Paging/Tables.antt =====
-- The page tables of paging.c in physical memory: an entry is a 64-bit word of `ram`, and a table is
-- its physical address. The masks select bits, so `&` with one of them is written with `/` and `%`;
-- the parts that `|` joins do not overlap, so it is a sum. Invalidating the TLB shows in no word.
use xasmos.Base.{
  ℕ, ◌+◌, ◌*◌, ◌/◌, ◌%◌, ◌^◌, Bool, not, ◌||◌, Option, none, some, ◌==◌, if◌then◌else◌, add64,
  update, for_up,
}
use xasmos.Physical.State.{frame_size}
use xasmos.Physical.Alloc.{phys_alloc_frames}
use xasmos.Ledger.Ops.{Kernel}

abbrev pub xpt_ents : ℕ
xpt_ents = 512

abbrev pub xpt_present : ℕ
xpt_present = 1

abbrev pub xpt_write : ℕ
xpt_write = 2

abbrev pub xpt_user : ℕ
xpt_user = 4

abbrev pub xpt_uc : ℕ
xpt_uc = 16 + 8

abbrev pub xpt_huge : ℕ
xpt_huge = 128

abbrev pub xpt_global : ℕ
xpt_global = 256

abbrev pub xpt_nx : ℕ
xpt_nx = 2 ^ 63

abbrev pub xpt_kernel_rw : ℕ
xpt_kernel_rw = xpt_present + xpt_write

-- The flags of the intermediate levels of a user mapping.
abbrev pub xpt_upper : ℕ
xpt_upper = xpt_present + xpt_write + xpt_user

-- e & XPT_PRESENT
abbrev pub is_present : ℕ → Bool
is_present e = e % 2 == 1

-- e & XPT_HUGE
abbrev pub is_huge : ℕ → Bool
is_huge e = e / 2 ^ 7 % 2 == 1

-- e & XPT_ADDR_MASK
abbrev pub entry_addr : ℕ → ℕ
entry_addr e = e / 2 ^ 12 % 2 ^ 40 * 2 ^ 12

-- e & XPT_HUGE_MASK
abbrev pub huge_addr : ℕ → ℕ
huge_addr e = e / 2 ^ 21 % 2 ^ 31 * 2 ^ 21

-- The word of entry `idx`: `tbl(phys) + idx`
abbrev pub slot_word : ℕ → ℕ → ℕ
slot_word table idx = table / 8 + idx

abbrev pub index4 : ℕ → ℕ
index4 va = va / 2 ^ 39 % 512

abbrev pub index3 : ℕ → ℕ
index3 va = va / 2 ^ 30 % 512

abbrev pub index2 : ℕ → ℕ
index2 va = va / 2 ^ 21 % 512

abbrev pub index1 : ℕ → ℕ
index1 va = va / 2 ^ 12 % 512

abbrev pub entry : Kernel → ℕ → ℕ → ℕ
entry k table idx = k.ram (slot_word table idx)

abbrev pub set_entry : ℕ → ℕ → ℕ → Kernel → Kernel
set_entry table idx e k = record k { ram = update k.ram (slot_word table idx) e }

-- The loop that clears a table.
unfoldable pub clear_table : ℕ → (ℕ → ℕ) → ℕ → ℕ
clear_table phys ram = for_up xpt_ents (phys / 8) (λ i r. update r i 0) ram

-- Address 0 is failure.
unfoldable pub alloc_zero_table : Kernel → ℕ × Kernel
alloc_zero_table k =
    let (phys, p) = phys_alloc_frames 1 k.phys in
    if phys == 0
    then (0, record k { phys = p })
    else (phys, record k { phys = p; ram = clear_table phys k.ram })

-- The table that entry `idx` points to, which is made if there is none; 0 is the null pointer.
unfoldable pub next_level : ℕ → ℕ → ℕ → Kernel → ℕ × Kernel
next_level table idx flags k =
    let e = entry k table idx in
    let (phys, k') = alloc_zero_table k in
    if is_present e
    then (entry_addr e, k)
    else if phys == 0
    then (0, k')
    else (phys, set_entry table idx (phys + flags) k')

-- The results of the xas functions.
pub data Xas : Type 0 where
  ok arg wx range token owner rights busy nomem notmapped : Xas

-- The word of the last-level entry; `none` is the null pointer.
unfoldable pub walk_pte : ℕ → ℕ → Kernel → Option ℕ
walk_pte pml4 va k =
    let e4 = entry k pml4 (index4 va) in
    let e3 = entry k (entry_addr e4) (index3 va) in
    let e2 = entry k (entry_addr e3) (index2 va) in
    if not (is_present e4)
    then none
    else if not (is_present e3)
    then none
    else if not (is_present e2) || is_huge e2
    then none
    else some (slot_word (entry_addr e2) (index1 va))

-- The last step of `map_page`.
unfoldable pub set_leaf : ℕ → ℕ → ℕ → ℕ → Kernel → Xas × Kernel
set_leaf pt va pa leaf k =
    if is_present (entry k pt (index1 va))
    then (busy, k)
    else (ok, set_entry pt (index1 va) (entry_addr pa + leaf) k)

unfoldable pub map_page : ℕ → ℕ → ℕ → ℕ → Kernel → Xas × Kernel
map_page pml4 va pa leaf k =
    let (pdpt, k1) = next_level pml4 (index4 va) xpt_upper k in
    let (pd, k2) = next_level pdpt (index3 va) xpt_upper k1 in
    let (pt, k3) = next_level pd (index2 va) xpt_upper k2 in
    if pdpt == 0
    then (nomem, k1)
    else if pd == 0
    then (nomem, k2)
    else if pt == 0
    then (nomem, k3)
    else set_leaf pt va pa leaf k3

unfoldable pub clear_pte : Option ℕ → Kernel → Kernel
clear_pte none k = k
clear_pte (some w) k = if is_present (k.ram w) then record k { ram = update k.ram w 0 } else k

unfoldable pub unmap_page : ℕ → ℕ → Kernel → Kernel
unmap_page pml4 va k = clear_pte (walk_pte pml4 va k) k

unfoldable pub unmap_pages : ℕ → ℕ → ℕ → Kernel → Kernel
unmap_pages pml4 va pages k =
    for_up pages 0 (λ i k. unmap_page pml4 (add64 va (i * frame_size)) k) k
