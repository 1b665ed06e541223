-- ===== src/Loader/Load.antt =====
-- source/core/exb/load.c over the interface of kerncall/include/xload_backend.h.
use xasmos.Base.{
  ℕ, zero, suc, ◌+◌, ◌-◌, ◌/◌, Bool, Option, none, some, List, [], ◌∷◌, ◌==◌, if◌then◌else◌,
  bit_and, for_up, add32,
}
use xasmos.Ledger.Table.{
  owner_kernel, right_read, right_write, right_execute, right_map, right_release,
}
use xasmos.Exb.Image.{Image, byte_at, ExbSeg, ExbInfo, Error}
use xasmos.Exb.Parse.{exb_parse}

abbrev pub xlb_page : ℕ
xlb_page = 4096

abbrev pub xlb_user_top : ℕ
xlb_user_top = 0x800000000000

abbrev pub xlb_perm_r : ℕ
xlb_perm_r = 1

abbrev pub xlb_perm_w : ℕ
xlb_perm_w = 2

abbrev pub xlb_perm_x : ℕ
xlb_perm_x = 4

abbrev pub seg_w : ℕ
seg_w = 2

abbrev pub seg_x : ℕ
seg_x = 4

-- What an architecture provides, over its address spaces and its state. `store` is the write of a
-- byte through a pointer.
pub record Backend (Space State : Type 0) : Type 0 where
  pub quota_ok : ℕ → ℕ → ℕ → State → Bool
  pub alloc : ℕ → ℕ → ℕ → State → Option ℕ × State
  pub kernel_ptr : ℕ → State → ℕ
  pub store : ℕ → ℕ → State → State
  pub release : ℕ → State → State
  pub map : Space → ℕ → ℕ → ℕ → State → Bool × State
  pub unmap : Space → ℕ → State → State

-- The tokens and the addresses that the load has taken, the latest first.
pub record Txn : Type 0 where
  pub tok : List ℕ
  pub va : List ℕ

-- XLOAD_OK and the failures.
pub data Load : Type 0 where
  ok arg image quota nomem map : Load

pub record XLoadResult : Type 0 where
  pub entry : ℕ
  pub stack_top : ℕ
  pub stack_bytes : ℕ
  pub tokens_granted : ℕ

unfoldable pub seg_rights : ℕ → ℕ
seg_rights flags =
    right_read
    + right_map
    + right_release
    + (if bit_and flags seg_w == 0 then 0 else right_write)
    + (if bit_and flags seg_x == 0 then 0 else right_execute)

unfoldable pub seg_perms : ℕ → ℕ
seg_perms flags =
    xlb_perm_r
    + (if bit_and flags seg_w == 0 then 0 else xlb_perm_w)
    + (if bit_and flags seg_x == 0 then 0 else xlb_perm_x)

-- A load under way, or one that has failed and been undone.
pub data Loading (State : Type 0) : Type 0 where
  failed : Load → State → Loading State
  going : Txn → State → Loading State

abbrev pub stack_top : ℕ
stack_top = xlb_user_top - xlb_page

module _ {Space State : Type 0} (b : Backend Space State) where
  unfoldable pub unmap_all : Space → List ℕ → State → State
  unmap_all space [] s = s
  unmap_all space (va ∷ rest) s = unmap_all space rest (b.unmap space va s)

  unfoldable pub release_all : List ℕ → State → State
  release_all [] s = s
  release_all (tok ∷ rest) s = release_all rest (b.release tok s)

  unfoldable pub rollback : Space → Txn → State → State
  rollback space t s = release_all t.tok (unmap_all space t.va s)

  -- The copy of the file data of a segment to the frames of a token.
  unfoldable pub copy_file : Image → ExbSeg → ℕ → State → State
  copy_file img seg tok s =
      let dst = b.kernel_ptr tok s in
      for_up seg.file_size 0 (λ i s. b.store (dst + i) (byte_at img (add32 seg.file_off i)) s) s

  -- What follows a successful allocation: the contents, and the mapping.
  unfoldable pub map_token : Space → ℕ → ℕ → (ℕ → State → State) → Txn → ℕ → State → Loading State
  map_token space va perms fill t tok s =
      let held = record t { tok = tok ∷ t.tok } in
      let (mapped, s') = b.map space va tok perms (fill tok s) in
      if mapped
      then going (record held { va = va ∷ t.va }) s'
      else failed Load.map (rollback space held s')

  -- One segment, or the stack: frames for it, their contents, and the mapping.
  unfoldable pub place :
      Space → ℕ → ℕ → ℕ → ℕ → ℕ → (ℕ → State → State) → Txn → State → Loading State
  place space owner va pages rights perms fill t s =
      let (r, s') = b.alloc owner pages rights s in
      elim r [
        | none ↦ failed Load.nomem (rollback space t s')
        | some tok ↦ map_token space va perms fill t tok s'
      ]

  unfoldable pub load_segment : Space → ℕ → Image → ExbSeg → Txn → State → Loading State
  load_segment space owner img seg t s =
      place space owner seg.vaddr seg.pages (seg_rights seg.flags) (seg_perms seg.flags)
        (copy_file img seg) t s

  -- The loop over the segments: how many are left, and the index.
  unfoldable pub load_segments :
      ℕ → ℕ → Space → ℕ → Image → (ℕ → ExbSeg) → Txn → State → Loading State
  load_segments zero i space owner img seg t s = going t s
  load_segments (suc n) i space owner img seg t s =
      elim (load_segment space owner img (seg i) t s) [
        | failed e s' ↦ failed e s'
        | going t' s' ↦ load_segments n (i + 1) space owner img seg t' s'
      ]

  -- The stack, below the guard page.
  unfoldable pub load_stack : Space → ℕ → ExbInfo → Loading State → Loading State
  load_stack space owner info (failed e s) = failed e s
  load_stack space owner info (going t s) =
      place space owner (stack_top - info.stack_bytes) (info.stack_bytes / xlb_page)
        (right_read + right_write + right_map + right_release) (xlb_perm_r + xlb_perm_w) (λ _ s. s)
        t s

  -- What is left in `*out`, if anything was written.
  unfoldable pub load_result : ExbInfo → Loading State → Load × Option XLoadResult × State
  load_result info (failed e s) = (e, none, s)
  load_result info (going t s) = (
    Load.ok,
    some (record {
      entry = info.entry;
      stack_top = stack_top;
      stack_bytes = info.stack_bytes;
      tokens_granted = info.extra_tokens;
    }),
    s,
  )

  -- What follows the validation of the image.
  unfoldable pub load_parsed :
      Space → ℕ → Image → Option Error × ExbInfo → State → Load × Option XLoadResult × State
  load_parsed space owner img (some e, info) s = (Load.image, none, s)
  load_parsed space owner img (none, info) s =
      let empty : Txn = record { tok = []; va = [] } in
      let segments = load_segments info.seg_count 0 space owner img info.seg empty s in
      if b.quota_ok owner (info.image_pages + info.stack_bytes / xlb_page) (info.seg_count + 1) s
      then load_result info (load_stack space owner info segments)
      else (Load.quota, none, s)

  -- `before` is what the uninitialised structure on the stack happens to hold; null pointers are
  -- `none`.
  unfoldable pub xload_exb :
      Option Space → ℕ → Option Image → ℕ → ExbInfo → State → Load × Option XLoadResult × State
  xload_exb none owner file size before s = (Load.arg, none, s)
  xload_exb (some space) owner none size before s = (Load.arg, none, s)
  xload_exb (some space) owner (some img) size before s =
      if size == 0
      then (Load.arg, none, s)
      else if owner == owner_kernel
      then (Load.arg, none, s)
      else load_parsed space owner img (exb_parse (some img) size before) s
