-- ===== src/Exfs/Lifecycle/Splices.antt =====
-- source/core/exfs/exfs.c: `exfs_write_at` leaves the names alone.
use xasmos.Base.{
  ℕ, zero, suc, ◌+◌, ◌-◌, ◌%◌, ◌^◌, ◌≡◌, refl, ap, ◌∙◌, Bool, true, not, Option, none, some, ltb,
  ◌==◌, if◌then◌else◌, update, add32, add64, sub64, if_both, for_up,
}
use xasmos.Block.Device.{Buffer}
use xasmos.Exfs.GroupOps.{gmap_free_total}
use xasmos.Exfs.Volume.{
  ExfsStatus, is_success, ExfsFile, ExfsExtent, Nodes, Volume, max_ext, defer_max, type_file, fext,
  set_file, blk_put, release_fresh,
}
use xasmos.Exfs.Pool.{Slice, pool_reserve, pool_release}
use xasmos.Exfs.Inodes.{defer_push, defer_chain}
use xasmos.Exfs.Names.{NodeName, find}
use xasmos.Exfs.Names.Prune.{defer_push-files, chained-files}
use xasmos.Exfs.Runs.{walk_defer, cut_start, cut_len, stage_list}
use xasmos.Exfs.Write.{set_nodes, take_fresh, min_of, move_extents}
use xasmos.Exfs.WriteAt.{
  Span, span_of, base_page, merge_bytes, write_blocks, splice_content, splice_slice, set_stage,
  splice_taken, splice_file, splice_found, exfs_write_at,
}
use xasmos.Exfs.Lifecycle.Same.{
  SameNames, SameNames-refl, SameNames-trans, SameNames-files, SameNames-set, SameNames-reserve,
}
use xasmos.Exfs.Lifecycle.Writes.{SameNames-take_fresh}

walk_defer-files :
    (n i lpos lo hi : ℕ) (exts : ℕ → ExfsExtent) (s : Nodes)
    → (walk_defer n i lpos lo hi exts s).1.files ≡ s.files
unfolding walk_defer
walk_defer-files zero i lpos lo hi exts s = refl
walk_defer-files (suc n) i lpos lo hi exts s =
    let e = exts i in
    let start = cut_start lo lpos e in
    let len = cut_len lo hi lpos e % 2 ^ 32 in
    let r = defer_push start len s in
    let pushed = defer_push-files start len s in
    let P = λ (r : ExfsStatus × Nodes). r.1.files ≡ s.files in
    if_both P (not (ltb lpos hi)) _ _ (λ _. refl)
      λ _.
        if_both P (cut_len lo hi lpos e == 0) _ _
          (λ _. walk_defer-files n (i + 1) (add64 lpos e.len) lo hi exts s)
          λ _.
            if_both P (is_success r.0) _ _
              (λ _. walk_defer-files n (i + 1) (add64 lpos e.len) lo hi exts r.1 ∙ pushed)
              (λ _. pushed)

SameNames-splice :
    (i : ℕ) (k : Span) (slice : Slice) (s : Nodes) → SameNames s (splice_content i k slice s)
unfolding splice_content pool_release
SameNames-splice i k slice s =
    let f = s.files i in
    let hi = min_of (add64 k.l1 1) k.oldb in
    let runs = (walk_defer f.n 0 0 k.w0 hi (fext s f) s).1 in
    let chains = for_up f.nchain 0 (defer_chain f) runs in
    let freed = pool_release f.ext_off f.ext_cap chains in
    let moved = move_extents slice.off freed.nstage freed.stage freed in
    let kept : moved.files ≡ s.files =
      chained-files f.nchain f runs ∙ walk_defer-files f.n 0 0 k.w0 hi (fext s f) s in
    let g : ExfsFile = record f {
      ext_off = slice.off;
      ext_cap = slice.cap;
      nchain = 0;
      n = s.nstage;
      size = if ltb f.size k.end then k.end else f.size;
      dirty = true;
    } in
    let u = set_file i g s in
    SameNames-trans s u _ (SameNames-set i g s (record { used = refl; type = refl; name = refl })) (
      SameNames-files u (record (set_file i g moved) { dirty = true })
        (ap (λ (h : ℕ → ExfsFile). update h i g) kept))

module _ {ℓ} {D : Type ℓ} where
  write_blocks-nodes :
      (n l fi fk : ℕ) (k : Span) (buf : Buffer) (v : Volume D)
      → (write_blocks n l fi fk k buf v).1.nodes ≡ v.nodes
  unfolding write_blocks blk_put
  write_blocks-nodes zero l fi fk k buf v = refl
  write_blocks-nodes (suc n) l fi fk k buf v =
      let b = base_page k l v in
      let page = merge_bytes k l buf b.1 in
      let e = v.nodes.fresh fi in
      let r = blk_put (add64 e.start fk) page (record v { page = page }) in
      let P = λ (r : Bool × Volume D). r.1.nodes ≡ v.nodes in
      if_both P (not b.0) _ _ (λ _. refl)
        λ _.
          if_both P (not r.0) _ _ (λ _. refl)
            λ _.
              if_both P (fk + 1 == e.len) _ _
                (λ _. write_blocks-nodes n (l + 1) (fi + 1) 0 k buf r.1)
                (λ _. write_blocks-nodes n (l + 1) fi (fk + 1) k buf r.1)

  SameNames-splice_slice :
      (i nf : ℕ) (k : Span) (buf : Buffer) (o : Option Slice) (v : Volume D)
      → SameNames v.nodes (splice_slice i nf k buf o v).1.nodes
  unfolding splice_slice release_fresh pool_release
  SameNames-splice_slice i nf k buf none v = SameNames-refl v.nodes
  SameNames-splice_slice i nf k buf (some slice) v =
      let k' = record k { exts = fext v.nodes (v.nodes.files i) } in
      let n = k.l1 - k.w0 + 1 in
      let r = write_blocks n k.w0 0 0 k' buf v in
      let same =
        SameNames-files v.nodes r.1.nodes
          (ap (λ (s : Nodes). s.files) (write_blocks-nodes n k.w0 0 0 k' buf v)) in
      if_both (λ (r : ExfsStatus × Volume D). SameNames v.nodes r.1.nodes) (not r.0) _ _
        (λ _.
          SameNames-trans v.nodes r.1.nodes _ same
            (SameNames-files r.1.nodes (pool_release slice.off slice.cap r.1.nodes) refl))
        (λ _. SameNames-trans v.nodes r.1.nodes _ same (SameNames-splice i k' slice r.1.nodes))

  SameNames-splice_taken :
      (junk : ℕ → ℕ) (i nf : ℕ) (k : Span) (buf : Buffer) (v : Volume D)
      → SameNames v.nodes (splice_taken junk i nf k buf v).1.nodes
  unfolding splice_taken release_fresh
  SameNames-splice_taken junk i nf k buf v =
      let t = stage_list k.file.n k.exts k.oldb k.w0 k.l1 nf v.nodes.fresh v.nodes.stage in
      let s = set_stage t.1 v.nodes in
      let staged = SameNames-files v.nodes s refl in
      let p = pool_reserve junk t.1.nstage s in
      if_both (λ (r : ExfsStatus × Volume D). SameNames v.nodes r.1.nodes) (not t.0) _ _
        (λ _. staged)
        (λ _. SameNames-trans v.nodes s _ staged (
          SameNames-trans s p.1 _ (SameNames-reserve junk t.1.nstage s)
            (SameNames-splice_slice i nf k buf p.0 (set_nodes p.1 v))))

  SameNames-splice_file :
      (junk : ℕ → ℕ) (i : ℕ) (buf : Buffer) (off len : ℕ) (v : Volume D)
      → SameNames v.nodes (splice_file junk i buf off len v).1.nodes
  unfolding splice_file release_fresh
  SameNames-splice_file junk i buf off len v =
      let k = span_of v.nodes i off len in
      let nfresh = sub64 k.l1 k.w0 + 1 in
      let t = take_fresh max_ext 0 0 nfresh v in
      let first = SameNames-take_fresh max_ext 0 0 nfresh v in
      let P = λ (r : ExfsStatus × Volume D). SameNames v.nodes r.1.nodes in
      let keep = SameNames-refl v.nodes in
      if_both P (len == 0) _ _ (λ _. keep)
        λ _.
          if_both P (ltb (add64 off len) off) _ _ (λ _. keep)
            λ _.
              if_both P (ltb (gmap_free_total v.gm) nfresh) _ _ (λ _. keep)
                λ _.
                  if_both P
                    (ltb defer_max (add32 (add32 (add32 v.nodes.ndefer k.file.n) k.file.nchain) 1))
                    _ _ (λ _. keep)
                    λ _.
                      if_both P (is_success t.0) _ _
                        (λ _.
                          SameNames-trans v.nodes t.2.nodes _ first
                            (SameNames-splice_taken junk i t.1 k buf t.2))
                        (λ _. first)

  SameNames-splice_found :
      (junk : ℕ → ℕ) (o : Option ℕ) (off : ℕ) (buf : Buffer) (len : ℕ) (v : Volume D)
      → SameNames v.nodes (splice_found junk o off buf len v).1.nodes
  unfolding splice_found
  SameNames-splice_found junk none off buf len v = SameNames-refl v.nodes
  SameNames-splice_found junk (some i) off buf len v =
      if_both (λ (r : ExfsStatus × Volume D). SameNames v.nodes r.1.nodes)
        (not ((v.nodes.files i).type == type_file)) _ _ (λ _. SameNames-refl v.nodes)
        (λ _. SameNames-splice_file junk i buf off len v)

  pub SameNames-write_at :
      (junk : ℕ → ℕ) (name : NodeName) (off : ℕ) (buf : Buffer) (len : ℕ) (v : Volume D)
      → SameNames v.nodes (exfs_write_at junk name off buf len v).1.nodes
  unfolding exfs_write_at
  SameNames-write_at junk name off buf len v =
      let P = λ (r : ExfsStatus × Volume D). SameNames v.nodes r.1.nodes in
      if_both P (not v.mounted) _ _ (λ _. SameNames-refl v.nodes)
        λ _.
          if_both P v.broken _ _ (λ _. SameNames-refl v.nodes)
            λ _. SameNames-splice_found junk (find name v.nodes.files) off buf len v
