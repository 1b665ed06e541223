-- ===== src/Ledger/Ops.antt =====
-- The operations of token_ledger.c over the ledger, the frame allocator and memory. Each runs its
-- locked sections one after the other.
use xasmos.Base.{
  ℕ, zero, suc, ◌+◌, ◌-◌, ◌*◌, ◌/◌, ◌%◌, ◌^◌, Bool, true, false, not, ◌&&◌, Option, none, some,
  List, [], ◌∷◌, ltb, ◌==◌, if◌then◌else◌, add32, add64, update, bit_and, for_up,
}
use xasmos.Physical.State.{PhysBitmap, phys_free_frames, frame_size, frames_per_huge}
use xasmos.Physical.Alloc.{phys_alloc_frames, phys_alloc_huge}
use xasmos.Ledger.Table.{
  Ledger, XTokenEntry, lookup_live, seal_ram_locked, wipe_slot, pack_token, kind_ram, invalid,
  table_slots, right_release,
}

-- `ram` is physical memory as 64-bit words, by the word's number.
pub record Kernel : Type 0 where
  pub ledger : Ledger
  pub phys : PhysBitmap
  pub ram : ℕ → ℕ

unfoldable pub zero_frames : ℕ → ℕ → (ℕ → ℕ) → ℕ → ℕ
zero_frames phys n ram = for_up (n * (frame_size / 8) % 2 ^ 64) (phys / 8) (λ i r. update r i 0) ram

-- What follows the allocation of the frames: they are zeroed and sealed, and handed back if the
-- table is full.
unfoldable pub seal_frames : ℕ → ℕ → ℕ → ℕ × PhysBitmap → Kernel → ℕ × Kernel
seal_frames owner n rights (phys, p) k =
    if phys == 0
    then (invalid, record k { phys = p })
    else let (tok, l) = seal_ram_locked owner phys n rights k.ledger in
      let ram = zero_frames phys n k.ram in
      if tok == invalid
      then (invalid, record { ledger = l; phys = phys_free_frames phys n p; ram = ram })
      else (tok, record { ledger = l; phys = p; ram = ram })

unfoldable pub xtok_alloc_ram : ℕ → ℕ → ℕ → Kernel → ℕ × Kernel
xtok_alloc_ram owner n rights k =
    if n == 0 then (invalid, k) else seal_frames owner n rights (phys_alloc_frames n k.phys) k

unfoldable pub xtok_alloc_ram_huge : ℕ → ℕ → Kernel → ℕ × Kernel
xtok_alloc_ram_huge owner rights k =
    seal_frames owner frames_per_huge rights (phys_alloc_huge k.phys) k

-- (rights & needed) == needed
abbrev pub has_rights : XTokenEntry → ℕ → Bool
has_rights e needed = bit_and e.rights needed == needed

unfoldable pub xtok_validate : ℕ → ℕ → Ledger → Bool
xtok_validate tok needed l = elim (lookup_live tok l) [
  | none ↦ false
  | some slot ↦ has_rights (l.table slot) needed
]

-- The frames of a RAM token: physical address and count.
unfoldable pub xtok_ram_info : ℕ → Ledger → Option (ℕ × ℕ)
xtok_ram_info tok l = elim (lookup_live tok l) [
  | none ↦ none
  | some slot ↦
      if (l.table slot).kind == kind_ram
      then some ((l.table slot).phys, (l.table slot).n_frames)
      else none
]

-- 0, XTOK_REL_ESTALE, XTOK_REL_EBUSY, XTOK_REL_ERIGHTS
pub data Release : Type 0 where
  ok estale ebusy erights : Release

-- Frees the frames of an entry that held any.
unfoldable pub free_entry : XTokenEntry → PhysBitmap → PhysBitmap
free_entry e p =
    if (e.kind == kind_ram) && not (e.phys == 0) && not (e.n_frames == 0)
    then phys_free_frames e.phys e.n_frames p
    else p

-- The part of `release_impl` behind the lookup. The flags are REL_CHECK_RIGHT and REL_CHECK_OWNER.
unfoldable pub release_slot : ℕ → Bool → Bool → ℕ → Kernel → Release × Kernel
release_slot slot check_right check_owner owner k =
    let e = k.ledger.table slot in
    if check_owner && not (e.owner_id == owner)
    then (estale, k)
    else if check_right && (bit_and e.rights right_release == 0)
    then (erights, k)
    else if not (e.map_count == 0)
    then (ebusy, k)
    else (ok, record k { ledger = wipe_slot slot k.ledger; phys = free_entry e k.phys })

unfoldable pub release_found : Option ℕ → Bool → Bool → ℕ → Kernel → Release × Kernel
release_found none check_right check_owner owner k = (estale, k)
release_found (some slot) check_right check_owner owner k =
    release_slot slot check_right check_owner owner k

unfoldable pub release_impl : ℕ → Bool → Bool → ℕ → Kernel → Release × Kernel
release_impl tok check_right check_owner owner k =
    release_found (lookup_live tok k.ledger) check_right check_owner owner k

-- A missing right is reported as a stale token here.
abbrev pub hide_rights : Release → Release
hide_rights erights = estale
hide_rights r = r

unfoldable pub xtok_release : ℕ → Kernel → Release × Kernel
unfolding release_impl
xtok_release tok k = let (r, k') = release_impl tok true false 0 k in (hide_rights r, k')

unfoldable pub xtok_release_owned : ℕ → ℕ → Kernel → Release × Kernel
xtok_release_owned tok owner k = release_impl tok true true owner k

unfoldable pub xtok_reclaim : ℕ → Kernel → Release × Kernel
xtok_reclaim tok k = release_impl tok false false 0 k

-- The loop of `xtok_owner_tokens`: slots left, slot, tokens still wanted.
unfoldable pub owner_tokens_from : ℕ → ℕ → ℕ → ℕ → Ledger → List ℕ
owner_tokens_from zero slot wanted owner l = []
owner_tokens_from (suc rounds) slot wanted owner l =
    let hit = (l.table slot).live && ((l.table slot).owner_id == owner) in
    let rest = owner_tokens_from rounds (slot + 1) (if hit then wanted - 1 else wanted) owner l in
    if wanted == 0
    then []
    else if hit
    then pack_token slot (l.table slot).generation ∷ rest
    else rest

unfoldable pub xtok_owner_tokens : ℕ → ℕ → Ledger → List ℕ
xtok_owner_tokens owner max l = owner_tokens_from table_slots 0 max owner l

pub record Usage : Type 0 where
  pub frames : ℕ
  pub tokens : ℕ

unfoldable pub add_usage : ℕ → Ledger → ℕ → Usage → Usage
add_usage owner l slot u =
    if (l.table slot).live && ((l.table slot).owner_id == owner)
    then record { frames = add64 u.frames (l.table slot).n_frames; tokens = add32 u.tokens 1 }
    else u

unfoldable pub xtok_owner_usage : ℕ → Ledger → Usage
xtok_owner_usage owner l =
    for_up table_slots 0 (add_usage owner l) (record { frames = 0; tokens = 0 })

abbrev pub xtok_live_count : Ledger → ℕ
xtok_live_count l = l.live_count

-- XTOK_MAP_OK with the frames, XTOK_MAP_ESTALE, EOWNER, ERIGHTS, EKIND, EBUSY
pub data Acquire : Type 0 where
  pinned : ℕ → ℕ → Acquire
  estale eowner erights ekind ebusy : Acquire

abbrev pub set_map_count : ℕ → ℕ → Ledger → Ledger
set_map_count slot n l = record l {
  table = update l.table slot (record (l.table slot) { map_count = n });
}

unfoldable pub acquire_slot : ℕ → ℕ → ℕ → Ledger → Acquire × Ledger
acquire_slot slot caller needed l =
    let e = l.table slot in
    if not (e.kind == kind_ram)
    then (Acquire.ekind, l)
    else if not (e.owner_id == caller)
    then (Acquire.eowner, l)
    else if not (has_rights e needed)
    then (Acquire.erights, l)
    else if e.map_count == 0xFFFF
    then (Acquire.ebusy, l)
    else (pinned e.phys e.n_frames, set_map_count slot ((e.map_count + 1) % 2 ^ 16) l)

unfoldable pub acquire_found : Option ℕ → ℕ → ℕ → Ledger → Acquire × Ledger
acquire_found none caller needed l = (Acquire.estale, l)
acquire_found (some slot) caller needed l = acquire_slot slot caller needed l

unfoldable pub xtok_map_acquire : ℕ → ℕ → ℕ → Ledger → Acquire × Ledger
xtok_map_acquire tok caller needed l = acquire_found (lookup_live tok l) caller needed l

unfoldable pub xtok_map_release : ℕ → Ledger → Ledger
xtok_map_release tok l = elim (lookup_live tok l) [
  | none ↦ l
  | some slot ↦
      if ltb 0 (l.table slot).map_count
      then set_map_count slot ((l.table slot).map_count - 1) l
      else l
]

unfoldable pub xtok_map_count : ℕ → Ledger → ℕ
xtok_map_count tok l = elim (lookup_live tok l) [
  | none ↦ 0xFFFFFFFF
  | some slot ↦ (l.table slot).map_count
]
