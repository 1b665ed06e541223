-- ===== src/Paging/Spaces.antt =====
-- The address spaces of paging.c: a record for each mapping, and the functions that map a token's
-- frames into a space and take them out again. Each runs under `g_pt_lock` from its first read of the
-- records on.
use xasmos.Base.{
  ℕ, zero, suc, ◌+◌, ◌-◌, ◌*◌, ◌/◌, ◌%◌, ◌^◌, Bool, true, false, not, ◌&&◌, ◌||◌, Option, none,
  some, ltb, leb, ◌==◌, if◌then◌else◌, add32, add64, update, bit_and, for_up,
}
use xasmos.Physical.State.{frame_size, phys_free_frames}
use xasmos.Ledger.Table.{owner_kernel, right_read, right_write, right_execute, right_map}
use xasmos.Ledger.Ops.{Kernel, Acquire, pinned, xtok_map_acquire, xtok_map_release}
use xasmos.Paging.Tables.{
  xpt_ents, xpt_present, xpt_write, xpt_user, xpt_nx, is_present, entry_addr, entry, set_entry,
  alloc_zero_table, Xas, ok, arg, wx, range, token, nomem, notmapped, map_page, unmap_pages,
}

abbrev pub max_maps : ℕ
max_maps = 1024

abbrev pub max_maps_per_owner : ℕ
max_maps_per_owner = 64

abbrev pub kernel_half : ℕ
kernel_half = 256

abbrev pub user_base : ℕ
user_base = 0x8000000000

abbrev pub user_top : ℕ
user_top = 0x800000000000

abbrev pub perm_r : ℕ
perm_r = 1

abbrev pub perm_w : ℕ
perm_w = 2

abbrev pub perm_x : ℕ
perm_x = 4

pub record MapRec : Type 0 where
  pub as_pml4 : ℕ
  pub owner : ℕ
  pub virt : ℕ
  pub tok : ℕ
  pub pages : ℕ
  pub live : Bool

pub record XAspace : Type 0 where
  pub pml4_phys : ℕ
  pub owner_id : ℕ
  pub live : Bool

-- `g_maps` and `g_pml4_phys`, with the ledger, the bitmap and memory.
pub record Vm : Type 0 where
  pub kernel : Kernel
  pub maps : ℕ → MapRec
  pub pml4_phys : ℕ

-- The token gives back one mapping.
abbrev pub unpin : ℕ → Kernel → Kernel
unpin tok k = record k { ledger = xtok_map_release tok k.ledger }

-- Caller holds `g_pt_lock`.
unfoldable pub drop_record : ℕ → Vm → Vm
drop_record i v =
    let r = v.maps i in
    record v {
      kernel = unpin r.tok (unmap_pages r.as_pml4 r.virt r.pages v.kernel);
      maps = update v.maps i (record r { live = false });
    }

unfoldable pub map_err : Acquire → Xas
map_err Acquire.estale = token
map_err Acquire.ekind = token
map_err Acquire.eowner = Xas.owner
map_err Acquire.erights = Xas.rights
map_err Acquire.ebusy = Xas.busy
map_err (pinned phys n) = Xas.busy

-- The loop that looks for a user mapping in the kernel's own table: rounds left, and index.
unfoldable pub user_half_used : ℕ → ℕ → ℕ → Kernel → Bool
user_half_used zero i pml4 k = false
user_half_used (suc n) i pml4 k = is_present (entry k pml4 i) || user_half_used n (i + 1) pml4 k

-- The kernel's entries of the new table: the first one and the upper half.
unfoldable pub share_kernel : ℕ → ℕ → Kernel → Kernel
share_kernel kp np k =
    for_up (xpt_ents - kernel_half) kernel_half (λ i k. set_entry np i (entry k kp i) k)
      (set_entry np 0 (entry k kp 0) k)

-- The result, the new space, and the state afterwards.
unfoldable pub fill_space : ℕ → ℕ × Kernel → Vm → Xas × Option XAspace × Vm
fill_space owner_id (np, k) v =
    let freed = record k { phys = phys_free_frames np 1 k.phys } in
    let filled = share_kernel v.pml4_phys np k in
    if np == 0
    then (nomem, none, record v { kernel = k })
    else if user_half_used (kernel_half - 1) 1 v.pml4_phys k
    then (arg, none, record v { kernel = freed })
    else (
      ok,
      some (record { pml4_phys = np; owner_id = owner_id; live = true }),
      record v { kernel = filled },
    )

unfoldable pub xas_create : ℕ → Vm → Xas × Option XAspace × Vm
xas_create owner_id v =
    if (v.pml4_phys == 0) || (owner_id == owner_kernel)
    then (arg, none, v)
    else fill_space owner_id (alloc_zero_table v.kernel) v

-- How many of the records are live and belong to the owner.
unfoldable pub count_owned : ℕ → (ℕ → MapRec) → ℕ
count_owned owner maps =
    for_up max_maps 0 (λ i n. if (maps i).live && ((maps i).owner == owner) then add32 n 1 else n) 0

-- The first record that is not live: rounds left, and index.
unfoldable pub free_record : ℕ → ℕ → (ℕ → MapRec) → Option ℕ
free_record zero i maps = none
free_record (suc n) i maps =
    let rest = free_record n (i + 1) maps in if not (maps i).live then some i else rest

-- The rights that the token must carry. The bits are distinct, so `|=` adds them.
unfoldable pub rights_needed : ℕ → ℕ
rights_needed perms =
    right_map
    + right_read
    + (if bit_and perms perm_w == 0 then 0 else right_write)
    + (if bit_and perms perm_x == 0 then 0 else right_execute)

unfoldable pub leaf_flags : ℕ → ℕ
leaf_flags perms =
    xpt_present
    + xpt_user
    + (if bit_and perms perm_w == 0 then 0 else xpt_write)
    + (if bit_and perms perm_x == 0 then xpt_nx else 0)

-- The loop over the frames of the token: how many are left and how many are mapped. On an error the
-- pages of this call are unmapped again.
unfoldable pub map_frames : ℕ → ℕ → ℕ → ℕ → ℕ → ℕ → Kernel → Xas × Kernel
map_frames zero i pml4 virt phys leaf k = (ok, k)
map_frames (suc n) i pml4 virt phys leaf k =
    let (r, k') =
      map_page pml4 (add64 virt (i * frame_size)) (add64 phys (i * frame_size)) leaf k in
    elim r [
      | ok ↦ map_frames n (i + 1) pml4 virt phys leaf k'
      | e ↦ (e, unmap_pages pml4 virt i k')
    ]

-- The record of the mapping, or the undoing of the pin.
unfoldable pub record_mapping : XAspace → ℕ → ℕ → ℕ → ℕ → Xas × Kernel → Vm → Xas × Vm
record_mapping space virt tok frames i (r, k) v = elim r [
  | ok ↦ (
    ok,
    record v {
      kernel = k;
      maps = update v.maps i (record {
        as_pml4 = space.pml4_phys;
        owner = space.owner_id;
        virt = virt;
        tok = tok;
        pages = frames;
        live = true;
      });
    },
  )
  | e ↦ (e, record v { kernel = unpin tok k })
]

-- What follows a successful pin.
unfoldable pub map_pinned : XAspace → ℕ → ℕ → ℕ → ℕ → ℕ → Vm → Xas × Vm
map_pinned space virt tok perms phys frames v =
    let undone = record v { kernel = unpin tok v.kernel } in
    if (frames == 0) || ltb ((user_top - virt) / frame_size) frames
    then (range, undone)
    else elim (free_record max_maps 0 v.maps) [
      | none ↦ (nomem, undone)
      | some i ↦
          record_mapping space virt tok frames i
            (map_frames frames 0 space.pml4_phys virt phys (leaf_flags perms) v.kernel) v
    ]

unfoldable pub map_acquired : XAspace → ℕ → ℕ → ℕ → Acquire → Vm → Xas × Vm
map_acquired space virt tok perms (pinned phys frames) v =
    map_pinned space virt tok perms phys frames v
map_acquired space virt tok perms e v = (map_err e, v)

-- The part of `xas_map` under the lock.
unfoldable pub map_locked : XAspace → ℕ → ℕ → ℕ → Vm → Xas × Vm
map_locked space virt tok perms v =
    let (r, l) = xtok_map_acquire tok space.owner_id (rights_needed perms) v.kernel.ledger in
    if leb max_maps_per_owner (count_owned space.owner_id v.maps)
    then (nomem, v)
    else map_acquired space virt tok perms r (record v { kernel = record v.kernel { ledger = l } })

-- A null space is `none`.
unfoldable pub xas_map : Option XAspace → ℕ → ℕ → ℕ → Vm → Xas × Vm
xas_map none virt tok perms v = (arg, v)
xas_map (some space) virt tok perms v =
    if not space.live
    then (arg, v)
    else if (perms == 0) || not (bit_and perms (2 ^ 32 - 1 - 7) == 0)
    then (arg, v)
    else if not (bit_and perms perm_w == 0) && not (bit_and perms perm_x == 0)
    then (wx, v)
    else if not (virt % frame_size == 0)
    then (range, v)
    else if ltb virt user_base || leb user_top virt
    then (range, v)
    else map_locked space virt tok perms v

-- The record of the mapping at `virt`: rounds left, and index.
unfoldable pub find_record : ℕ → ℕ → ℕ → ℕ → (ℕ → MapRec) → Option ℕ
find_record zero i pml4 virt maps = none
find_record (suc n) i pml4 virt maps =
    let rest = find_record n (i + 1) pml4 virt maps in
    if (maps i).live && ((maps i).as_pml4 == pml4) && ((maps i).virt == virt) then some i else rest

unfoldable pub unmap_found : Option ℕ → Vm → Xas × Vm
unmap_found none v = (notmapped, v)
unmap_found (some i) v = (ok, drop_record i v)

unfoldable pub xas_unmap : Option XAspace → ℕ → Vm → Xas × Vm
xas_unmap none virt v = (arg, v)
xas_unmap (some space) virt v =
    if not space.live
    then (arg, v)
    else unmap_found (find_record max_maps 0 space.pml4_phys virt v.maps) v

-- The loop body of `xas_revoke_token`, with the count of removed mappings.
unfoldable pub revoke_record : ℕ → ℕ → ℕ × Vm → ℕ × Vm
revoke_record tok i (n, v) =
    if (v.maps i).live && ((v.maps i).tok == tok) then (n + 1, drop_record i v) else (n, v)

unfoldable pub xas_revoke_token : ℕ → Vm → ℕ × Vm
xas_revoke_token tok v = for_up max_maps 0 (revoke_record tok) (0, v)

-- The first loop of `xas_destroy`.
unfoldable pub drop_space : ℕ → ℕ → Vm → Vm
drop_space pml4 i v = if (v.maps i).live && ((v.maps i).as_pml4 == pml4) then drop_record i v else v

abbrev pub free_table : ℕ → Kernel → Kernel
free_table phys k = record k { phys = phys_free_frames phys 1 k.phys }

-- The tables below the second level, the second, and the top one.
unfoldable pub free_level1 : ℕ → ℕ → Kernel → Kernel
free_level1 pd i2 k =
    if is_present (entry k pd i2) then free_table (entry_addr (entry k pd i2)) k else k

unfoldable pub free_level2 : ℕ → ℕ → Kernel → Kernel
free_level2 pdpt i3 k =
    let pd = entry_addr (entry k pdpt i3) in
    if is_present (entry k pdpt i3) then free_table pd (for_up xpt_ents 0 (free_level1 pd) k) else k

unfoldable pub free_level3 : ℕ → ℕ → Kernel → Kernel
free_level3 pml4 i4 k =
    let pdpt = entry_addr (entry k pml4 i4) in
    if is_present (entry k pml4 i4)
    then free_table pdpt (for_up xpt_ents 0 (free_level2 pdpt) k)
    else k

unfoldable pub free_tables : ℕ → Kernel → Kernel
free_tables pml4 k = free_table pml4 (for_up (kernel_half - 1) 1 (free_level3 pml4) k)

-- The space afterwards, and the state.
unfoldable pub xas_destroy : Option XAspace → Vm → Option XAspace × Vm
xas_destroy none v = (none, v)
xas_destroy (some space) v =
    let dropped = for_up max_maps 0 (drop_space space.pml4_phys) v in
    let freed = record dropped { kernel = free_tables space.pml4_phys dropped.kernel } in
    if not space.live then ((some space, v)) else (some (record space { live = false }), freed)

unfoldable pub xas_live_mappings : Vm → ℕ
xas_live_mappings v = for_up max_maps 0 (λ i n. if (v.maps i).live then add32 n 1 else n) 0
