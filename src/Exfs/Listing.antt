-- ===== src/Exfs/Listing.antt =====
-- source/core/exfs/exfs.c: `exfs_list` and the read-only views.
use xasmos.Base.{
  ℕ, zero, suc, ◌+◌, Bool, true, false, not, ◌&&◌, Option, none, some, List, [], ◌∷◌, ◌++◌, ltb,
  ◌==◌, if◌then◌else◌,
}
use xasmos.Exfs.Superblock.{inodes}
use xasmos.Exfs.GroupOps.{gmap_is_used, gmap_free_total}
use xasmos.Exfs.Volume.{
  ExfsStatus, enoent, enofs, einval, eio, ExfsFile, ExfsExtent, Nodes, Volume, CharArray, name_max,
  type_dir, fext,
}
use xasmos.Exfs.Names.{NodeName, length, is_root, find, Amount, amount, failed}

unfoldable pub starts_with : CharArray → ℕ → NodeName → Bool
starts_with a k [] = true
starts_with a k (c ∷ p) = (a k == c) && starts_with a (k + 1) p

-- The loop over the rest of a name. A name ends at index EXFS_NAME_MAX at the latest, which bounds the
-- rounds.
unfoldable pub nested_from : ℕ → ℕ → CharArray → Bool
nested_from zero k a = false
nested_from (suc left) k a =
    let rest = nested_from left (k + 1) a in
    if a k == 0 then false else if a k == b'|' then true else rest

-- `pre` and its terminator.
unfoldable pub list_prefix : NodeName → NodeName
list_prefix dir = if is_root dir then b'|' ∷ [] else dir ++ (b'|' ∷ [])

-- Whether a file is handed to the callback.
unfoldable pub is_listed : NodeName → ExfsFile → Bool
is_listed pre g =
    g.used
    && starts_with g.name 0 pre
    && not (g.name (length pre) == 0)
    && not (nested_from (name_max + 1) (length pre) g.name)

-- The arguments of one call of `cb`: the rest of the name and the type.
pub record Listed : Type 0 where
  pub rest : CharArray
  pub type : ℕ

unfoldable pub listing_from : ℕ → ℕ → NodeName → (ℕ → ExfsFile) → List Listed
listing_from zero i pre files = []
listing_from (suc n) i pre files =
    let rest = listing_from n (i + 1) pre files in
    let g = files i in
    if is_listed pre g
    then record { rest = λ k. g.name (length pre + k); type = g.type } ∷ rest
    else rest

-- The calls of `cb` in order, whose number is the result, or an error.
pub data Listing : Type 0 where
  calls : List Listed → Listing
  refused : ExfsStatus → Listing

unfoldable pub exfs_list {ℓ} : {D : Type ℓ} → NodeName → Volume D → Listing
exfs_list dir v =
    let files = v.nodes.files in
    let all = calls (listing_from inodes 0 (list_prefix dir) files) in
    let found : Listing = elim (find dir files) [
      | none ↦ refused enoent
      | some i ↦ if not ((files i).type == type_dir) then refused einval else all
    ] in
    if not v.mounted then refused enofs else if is_root dir then all else found

-- `none` is the null pointer.
unfoldable pub exfs_extents : Nodes → ExfsFile → Option (ℕ → ExfsExtent)
exfs_extents s f = if f.n == 0 then none else some (fext s f)

unfoldable pub exfs_lookup {ℓ} : {D : Type ℓ} → NodeName → Volume D → Option ℕ
exfs_lookup name v = find name v.nodes.files

unfoldable pub exfs_file {ℓ} : {D : Type ℓ} → ℕ → Volume D → Option ExfsFile
exfs_file i v = if ltb i inodes then some (v.nodes.files i) else none

unfoldable pub exfs_total_blocks {ℓ} : {D : Type ℓ} → Volume D → ℕ
exfs_total_blocks v = v.total

unfoldable pub exfs_free_blocks {ℓ} : {D : Type ℓ} → Volume D → ℕ
exfs_free_blocks v = gmap_free_total v.gm

unfoldable pub exfs_generation {ℓ} : {D : Type ℓ} → Volume D → ℕ
exfs_generation v = v.gen

unfoldable pub exfs_itab_start {ℓ} : {D : Type ℓ} → Volume D → ℕ
exfs_itab_start v = v.itab_start

unfoldable pub exfs_is_mounted {ℓ} : {D : Type ℓ} → Volume D → Bool
exfs_is_mounted v = v.mounted && not v.broken

-- The answer, with the group map, whose cache it moves.
unfoldable pub exfs_is_used {ℓ} : {D : Type ℓ} → ℕ → Volume D → Amount × Volume D
exfs_is_used block v =
    let (used, gm) = gmap_is_used block v.gm in
    let answer : Amount = elim used [ none ↦ failed eio | some b ↦ amount (if b then 1 else 0) ] in
    if not v.mounted then (failed enofs, v) else (answer, record v { gm = gm })
