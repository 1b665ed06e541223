-- ===== src/Exfs/Read.antt =====
-- source/core/exfs/exfs.c: `exfs_read_at` and `exfs_read`.
use xasmos.Base.{
  ℕ, zero, suc, ◌+◌, ◌-◌, ◌/◌, ◌%◌, not, ◌&&◌, none, some, ltb, leb, ◌==◌, if◌then◌else◌, add64,
}
use xasmos.Block.Device.{Buffer}
use xasmos.Exfs.Format.{Page, block_size}
use xasmos.Exfs.Volume.{enoent, eio, enofs, eisdir, ExfsExtent, Volume, type_file, fext, blk_got}
use xasmos.Exfs.Names.{NodeName, find, Amount, amount, failed}
use xasmos.Exfs.Write.{min_of}

-- The loop that looks for the extent of block `l`: rounds left, `i` and `base`.
unfoldable pub seek_from : ℕ → ℕ → ℕ → ℕ → (ℕ → ExfsExtent) → ℕ × ℕ
seek_from zero i base l exts = (i, base)
seek_from (suc n) i base l exts =
    let next = add64 base (exts i).len in
    let rest = seek_from n (i + 1) next l exts in if leb next l then rest else (i, base)

-- for (j = 0; j < n; j++) dst[done + j] = V.page[inblk + j]
unfoldable pub copy_out : ℕ → ℕ → ℕ → Page → Buffer → Buffer
copy_out n pos inblk page dst j =
    if leb pos j && ltb j (pos + n) then page (inblk + (j - pos)) else dst j

-- The loop that copies blocks, with `pos` for `done`. A round copies a byte at least, so `want` rounds
-- are enough. The result comes with the caller's buffer and the page.
unfoldable pub copy_from {ℓ} :
    {D : Type ℓ}
    → ℕ
    → ℕ
    → ℕ
    → ℕ
    → ℕ
    → ℕ
    → ℕ
    → (ℕ → ExfsExtent)
    → Buffer
    → Volume D
    → Amount × Buffer × Volume D
copy_from zero n i k inblk pos want exts dst v = (amount pos, dst, v)
copy_from (suc fuel) n i k inblk pos want exts dst v =
    let (read, page) = blk_got (add64 (exts i).start k) v.page v in
    let v' = record v { page = page } in
    let m = min_of (want - pos) (block_size - inblk) in
    let dst' = copy_out m pos inblk page dst in
    let over = k + 1 == (exts i).len in
    let rest =
      copy_from fuel n (if over then i + 1 else i) (if over then 0 else k + 1) 0 (pos + m) want exts
        dst' v' in
    if not (ltb pos want)
    then (amount pos, dst, v)
    else if i == n
    then (failed eio, dst, v)
    else if not read
    then (failed eio, dst, v')
    else rest

unfoldable pub read_file {ℓ} :
    {D : Type ℓ} → ℕ → ℕ → Buffer → ℕ → Volume D → Amount × Buffer × Volume D
read_file x off dst cap v =
    let f = v.nodes.files x in
    let exts = fext v.nodes f in
    let want = min_of (f.size - off) cap in
    let l = off / block_size in
    let (i, base) = seek_from f.n 0 0 l exts in
    let copied = copy_from want f.n i (l - base) (off % block_size) 0 want exts dst v in
    if leb f.size off then (amount 0, dst, v) else if i == f.n then (failed eio, dst, v) else copied

unfoldable pub exfs_read_at {ℓ} :
    {D : Type ℓ} → NodeName → ℕ → Buffer → ℕ → Volume D → Amount × Buffer × Volume D
exfs_read_at name off dst cap v =
    let got : Amount × Buffer × Volume _ = elim (find name v.nodes.files) [
      | none ↦ (failed enoent, dst, v)
      | some x ↦
          if not ((v.nodes.files x).type == type_file)
          then (failed eisdir, dst, v)
          else read_file x off dst cap v
    ] in
    if not v.mounted then (failed enofs, dst, v) else got

unfoldable pub exfs_read {ℓ} :
    {D : Type ℓ} → NodeName → Buffer → ℕ → Volume D → Amount × Buffer × Volume D
exfs_read name dst cap v = exfs_read_at name 0 dst cap v
