-- ===== src/Exfs/Lifecycle/Writes.antt =====
-- source/core/exfs/exfs.c: writes leave the names alone.
use xasmos.Base.{
  ℕ, zero, suc, ◌+◌, ◌-◌, ◌≡◌, refl, ap, ◌∙◌, Bool, true, not, Option, none, some, ltb, ◌==◌, add32,
  add64, if_both,
}
use xasmos.Block.Device.{Buffer}
use xasmos.Exfs.Format.{block_size}
use xasmos.Exfs.GroupMap.{GMap}
use xasmos.Exfs.GroupOps.{Taken, got, missed, gmap_take}
use xasmos.Exfs.Volume.{
  ExfsStatus, is_success, ExfsFile, ExfsExtent, Nodes, Volume, max_ext, defer_max, type_file,
  set_file, blk_put, take_extent, taken_extent, release_fresh,
}
use xasmos.Exfs.Pool.{Slice, pool_reserve, pool_release}
use xasmos.Exfs.Inodes.{defer_file}
use xasmos.Exfs.Names.{NodeName, find}
use xasmos.Exfs.Names.Prune.{emptied, FileDeferred, done, full, defer_file-FileDeferred}
use xasmos.Exfs.Write.{
  set_nodes, add_fresh, take_fresh, fill_page, min_of, write_run, write_runs, move_extents,
  replace_content, write_slice, write_taken, blocks_needed, write_file, write_found, exfs_write,
}
use xasmos.Exfs.Lifecycle.Same.{
  SameName, SameNames, SameNames-refl, SameNames-trans, SameNames-files, SameNames-set,
  SameNames-reserve,
}

module _ {ℓ} {D : Type ℓ} where
  take_extent-nodes :
      (need : ℕ) (out : ExfsExtent) (v : Volume D) → (take_extent need out v).2.nodes ≡ v.nodes
  unfolding take_extent taken_extent
  take_extent-nodes need out v = go (gmap_take v.hint need v.gm).0
    where
      gm : GMap D
      gm = (gmap_take v.hint need v.gm).1

      go : (r : Taken) → (taken_extent r out (record v { gm = gm })).2.nodes ≡ v.nodes
      go (missed _) = refl
      go (got start len) = refl

  pub SameNames-take_fresh :
      (left nf taken need : ℕ) (v : Volume D)
      → SameNames v.nodes (take_fresh left nf taken need v).2.nodes
  unfolding take_fresh
  SameNames-take_fresh zero nf taken need v =
      if_both (λ (r : ExfsStatus × ℕ × Volume D). SameNames v.nodes r.2.nodes) (ltb taken need) _ _
        (λ _. SameNames-refl v.nodes) (λ _. SameNames-refl v.nodes)
  SameNames-take_fresh (suc left) nf taken need v =
      let out : ExfsExtent = record { start = 0; len = 0 } in
      let t = take_extent (need - taken) out v in
      let same = take_extent-nodes (need - taken) out v in
      let first = SameNames-files v.nodes t.2.nodes (ap (λ (s : Nodes). s.files) same) in
      let w = add_fresh nf t.1 t.2 in
      let added =
        SameNames-trans v.nodes t.2.nodes w.nodes first (SameNames-files t.2.nodes w.nodes refl) in
      let P = λ (r : ExfsStatus × ℕ × Volume D). SameNames v.nodes r.2.nodes in
      if_both P (not (ltb taken need)) _ _ (λ _. SameNames-refl v.nodes)
        λ _.
          if_both P (t.0 == 0) _ _ (λ _. first)
            λ _.
              SameNames-trans v.nodes w.nodes _ added
                (SameNames-take_fresh left (nf + 1) (add64 taken t.0) need w)

  write_run-nodes :
      (m k start : ℕ) (buf : Buffer) (pos left : ℕ) (v : Volume D)
      → (write_run m k start buf pos left v).3.nodes ≡ v.nodes
  unfolding write_run blk_put
  write_run-nodes zero k start buf pos left v = refl
  write_run-nodes (suc m) k start buf pos left v =
      let n = min_of left block_size in
      let page = fill_page n pos buf v.page in
      let r = blk_put (add64 start k) page (record v { page = page }) in
      if_both (λ (q : Bool × ℕ × ℕ × Volume D). q.3.nodes ≡ v.nodes) r.0 _ _
        (λ _. write_run-nodes m (k + 1) start buf (pos + n) (left - n) r.1) (λ _. refl)

  write_runs-nodes :
      (n i : ℕ) (buf : Buffer) (pos left : ℕ) (v : Volume D)
      → (write_runs n i buf pos left v).1.nodes ≡ v.nodes
  unfolding write_runs
  write_runs-nodes zero i buf pos left v = refl
  write_runs-nodes (suc n) i buf pos left v =
      let e = v.nodes.fresh i in
      let r = write_run e.len 0 e.start buf pos left v in
      let first = write_run-nodes e.len 0 e.start buf pos left v in
      if_both (λ (q : Bool × Volume D). q.1.nodes ≡ v.nodes) r.0 _ _
        (λ _. write_runs-nodes n (i + 1) buf r.1 r.2 r.3 ∙ first) (λ _. first)

-- A file without blocks has the same name.
SameName-emptied : (f : ExfsFile) → SameName f (emptied f)
SameName-emptied f = record { used = refl; type = refl; name = refl }

SameNames-deferred :
    (i : ℕ) (s : Nodes) (r : ExfsStatus × Nodes) → FileDeferred i s r → SameNames s r.1
SameNames-deferred i s r full = SameNames-refl s
SameNames-deferred i s r (done {s'} e) =
    let t = set_file i (emptied (s.files i)) s in
    SameNames-trans s t s' (SameNames-set i (emptied (s.files i)) s (SameName-emptied (s.files i)))
      (SameNames-files t s' e)

SameNames-replace :
    (i : ℕ) (slice : Slice) (nf len : ℕ) (s : Nodes)
    → SameNames s (replace_content i slice nf len s)
unfolding replace_content
SameNames-replace i slice nf len s =
    let t = (defer_file i s).1 in
    let moved = move_extents slice.off nf s.fresh t in
    let f = moved.files i in
    let g = record f {
      ext_off = slice.off;
      ext_cap = slice.cap;
      n = nf;
      size = len;
      dirty = true;
    } in
    let u = set_file i g moved in
    SameNames-trans s t _ (SameNames-deferred i s (defer_file i s) (defer_file-FileDeferred i s)) (
      SameNames-trans t moved _ (SameNames-files t moved refl) (
        SameNames-trans moved u _
          (SameNames-set i g moved (record { used = refl; type = refl; name = refl }))
          (SameNames-files u (record u { dirty = true }) refl)))

module _ {ℓ} {D : Type ℓ} where
  SameNames-write_slice :
      (i nf : ℕ) (buf : Buffer) (len : ℕ) (o : Option Slice) (v : Volume D)
      → SameNames v.nodes (write_slice i nf buf len o v).1.nodes
  unfolding write_slice release_fresh pool_release
  SameNames-write_slice i nf buf len none v = SameNames-refl v.nodes
  SameNames-write_slice i nf buf len (some slice) v =
      let r = write_runs nf 0 buf 0 len v in
      let same =
        SameNames-files v.nodes r.1.nodes
          (ap (λ (s : Nodes). s.files) (write_runs-nodes nf 0 buf 0 len v)) in
      if_both (λ (r : ExfsStatus × Volume D). SameNames v.nodes r.1.nodes) (not r.0) _ _
        (λ _.
          SameNames-trans v.nodes r.1.nodes _ same
            (SameNames-files r.1.nodes (pool_release slice.off slice.cap r.1.nodes) refl))
        (λ _. SameNames-trans v.nodes r.1.nodes _ same (SameNames-replace i slice nf len r.1.nodes))

  SameNames-write_taken :
      (junk : ℕ → ℕ) (i nf : ℕ) (buf : Buffer) (len : ℕ) (v : Volume D)
      → SameNames v.nodes (write_taken junk i nf buf len v).1.nodes
  unfolding write_taken release_fresh
  SameNames-write_taken junk i nf buf len v =
      let f = v.nodes.files i in
      let p = pool_reserve junk nf v.nodes in
      if_both (λ (r : ExfsStatus × Volume D). SameNames v.nodes r.1.nodes)
        (ltb defer_max (add32 (add32 v.nodes.ndefer f.n) f.nchain)) _ _
        (λ _. SameNames-refl v.nodes)
        (λ _.
          SameNames-trans v.nodes p.1 _ (SameNames-reserve junk nf v.nodes)
            (SameNames-write_slice i nf buf len p.0 (set_nodes p.1 v)))

  SameNames-write_file :
      (junk : ℕ → ℕ) (i : ℕ) (buf : Buffer) (len : ℕ) (v : Volume D)
      → SameNames v.nodes (write_file junk i buf len v).1.nodes
  unfolding write_file release_fresh
  SameNames-write_file junk i buf len v =
      let t = take_fresh max_ext 0 0 (blocks_needed len) v in
      let first = SameNames-take_fresh max_ext 0 0 (blocks_needed len) v in
      if_both (λ (r : ExfsStatus × Volume D). SameNames v.nodes r.1.nodes) (is_success t.0) _ _
        (λ _.
          SameNames-trans v.nodes t.2.nodes _ first (SameNames-write_taken junk i t.1 buf len t.2))
        (λ _. first)

  SameNames-write_found :
      (junk : ℕ → ℕ) (o : Option ℕ) (buf : Buffer) (len : ℕ) (v : Volume D)
      → SameNames v.nodes (write_found junk o buf len v).1.nodes
  unfolding write_found
  SameNames-write_found junk none buf len v = SameNames-refl v.nodes
  SameNames-write_found junk (some i) buf len v =
      if_both (λ (r : ExfsStatus × Volume D). SameNames v.nodes r.1.nodes)
        (not ((v.nodes.files i).type == type_file)) _ _ (λ _. SameNames-refl v.nodes)
        (λ _. SameNames-write_file junk i buf len v)

  pub SameNames-write :
      (junk : ℕ → ℕ) (name : NodeName) (buf : Buffer) (len : ℕ) (v : Volume D)
      → SameNames v.nodes (exfs_write junk name buf len v).1.nodes
  unfolding exfs_write
  SameNames-write junk name buf len v =
      let P = λ (r : ExfsStatus × Volume D). SameNames v.nodes r.1.nodes in
      if_both P (not v.mounted) _ _ (λ _. SameNames-refl v.nodes)
        λ _.
          if_both P v.broken _ _ (λ _. SameNames-refl v.nodes)
            λ _. SameNames-write_found junk (find name v.nodes.files) buf len v
