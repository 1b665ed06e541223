-- ===== src/Exfs/Commit/Outcome.antt =====
-- source/core/exfs/exfs.c: the outcome of `exfs_commit`.
use xasmos.Base.{
  ℕ, zero, suc, ◌+◌, ◌*◌, ◌%◌, ◌^◌, ◌<◌, ◌≡◌, refl, ap, ◌∙◌, Bool, true, false, not, ◌||◌, Option,
  none, some, ltb, if◌then◌else◌, arith, if_both,
}
use xasmos.Exfs.Format.{Page, block_size, itab_blocks}
use xasmos.Exfs.Superblock.{inodes, sb_encode}
use xasmos.Exfs.GroupOps.{gmap_flush, is_done, gmap_free_total}
use xasmos.Exfs.Volume.{
  ExfsStatus, exfs_ok, is_success, ExfsFile, Volume, itab_area, set_file, blk_put, exfs_inl,
}
use xasmos.Exfs.Inodes.{apply_from, apply_deferred}
use xasmos.Exfs.Commit.{
  chain_blocks, chains_needed, take_chain, write_chain, commit_chain, commit_chains, encode_table,
  write_table, sb_fields, make_durable, write_page, write_super, commit_map, room_for, commit_dirty,
  exfs_commit,
}
use xasmos.Exfs.Commit.Keeps.{
  SameNode, SameNode-refl, SameNode-trans, Keeps, Keeps-refl, Keeps-trans, Keeps-file, Keeps-io,
  Keeps-put, Keeps-take_chain, Keeps-write_chain, Keeps-write_table, Keeps-apply,
}

-- A step of the commit kept the nodes, or it failed and the volume is broken at its old generation.
data Chained {ℓ} {D : Type ℓ} (v : Volume D) : ExfsStatus × Volume D → Type ℓ where
  chained : {w : Volume D} → Keeps v w → Chained v (exfs_ok, w)
  broke :
      {e : ExfsStatus} {w : Volume D}
      → is_success e ≡ false
      → w.broken ≡ true
      → w.gen ≡ v.gen
      → ((i : ℕ) → SameNode (v.nodes.files i) (w.nodes.files i))
      → w.nodes.pool ≡ v.nodes.pool
      → Chained v (e, w)

module _ {ℓ} {D : Type ℓ} where
  commit_chain-Chained : (i : ℕ) (v : Volume D) → Chained v (commit_chain i v)
  unfolding commit_chain
  commit_chain-Chained i v =
      let n = (v.nodes.files i).n in
      let nind = if ltb exfs_inl n then chain_blocks n else 0 in
      let t = take_chain nind 0 i v in
      let first = Keeps-take_chain nind 0 i v in
      let f = t.1.nodes.files i in
      let g : ExfsFile = record f { nchain = nind } in
      let u = record t.1 { nodes = set_file i g t.1.nodes } in
      let counted = Keeps-trans v t.1 u first (Keeps-file i g t.1 (same_count f nind)) in
      let w = write_chain nind 0 nind i u in
      let last = Keeps-trans v u w.1 counted (Keeps-write_chain nind 0 nind i u) in
      let P = λ (r : ExfsStatus × Volume D). Chained v r in
      if_both P (not t.0) _ _ (λ _. broke refl refl first.gen first.node first.pool)
        λ _.
          if_both P (not w.0) _ _ (λ _. broke refl refl last.gen last.node last.pool)
            λ _. chained last
    where
      same_count : (f : ExfsFile) (c : ℕ) → SameNode f (record f { nchain = c })
      same_count f c = record {
        used = refl;
        type = refl;
        size = refl;
        name = refl;
        n = refl;
        ext_off = refl;
        ext_cap = refl;
      }

  -- What follows a step that kept the nodes.
  Chained-then :
      (v : Volume D) (r rest : ExfsStatus × Volume D)
      → Chained v r
      → Chained r.1 rest
      → Chained v (if is_success r.0 then rest else r)
  Chained-then v r rest (chained {w} k) (chained {w = x} k') = chained (Keeps-trans v w x k k')
  Chained-then v r rest (chained {w} k) (broke {e} {w = x} bad b g n pool) =
      broke bad b (g ∙ k.gen)
        (λ i. SameNode-trans (v.nodes.files i) (w.nodes.files i) (x.nodes.files i) (k.node i) (n i))
        (pool ∙ k.pool)
  Chained-then v r rest (broke {e} {w} bad b g n pool) h = rw bad (broke bad b g n pool)

  commit_chains-Chained : (n i : ℕ) (v : Volume D) → Chained v (commit_chains n i v)
  unfolding commit_chains
  commit_chains-Chained zero i v = chained (Keeps-refl v)
  commit_chains-Chained (suc n) i v =
      let r = commit_chain i v in
      let f = v.nodes.files i in
      if_both (λ (r : ExfsStatus × Volume D). Chained v r) (not f.used || not f.dirty) _ _
        (λ _. commit_chains-Chained n (i + 1) v)
        (λ _. Chained-then v r _ (commit_chain-Chained i v) (commit_chains-Chained n (i + 1) r.1))

-- What `exfs_commit` does: nothing to do; the new generation, with nothing left to commit and every
-- node and extent list as before; a refusal that changes nothing; or a failure that leaves the volume
-- broken at its old generation, with its nodes.
pub data Committed {ℓ} {D : Type ℓ} (v : Volume D) : ExfsStatus × Volume D → Type ℓ where
  clean : v.mounted ≡ true → v.broken ≡ false → v.nodes.dirty ≡ false → Committed v (exfs_ok, v)
  durable :
      {w : Volume D}
      → w.gen ≡ (v.gen + 1) % 2 ^ 64
      → w.itab_start ≡ itab_area w.gen
      → w.mounted ≡ true
      → w.broken ≡ false
      → w.nodes.ndefer ≡ 0
      → w.nodes.dirty ≡ false
      → ((i : ℕ) → i < inodes → (w.nodes.files i).dirty ≡ false)
      → ((i : ℕ) → SameNode (v.nodes.files i) (w.nodes.files i))
      → w.nodes.pool ≡ v.nodes.pool
      → Committed v (exfs_ok, w)
  refused : {e : ExfsStatus} → is_success e ≡ false → Committed v (e, v)
  broken_off :
      {e : ExfsStatus} {w : Volume D}
      → is_success e ≡ false
      → w.broken ≡ true
      → w.gen ≡ v.gen
      → ((i : ℕ) → SameNode (v.nodes.files i) (w.nodes.files i))
      → w.nodes.pool ≡ v.nodes.pool
      → Committed v (e, w)

clean_node :
    (i : ℕ) (f : ExfsFile) → SameNode f (if ltb i inodes then record f { dirty = false } else f)
clean_node i f =
    if_both (λ (g : ExfsFile). SameNode f g) (ltb i inodes) _ _
      (λ _. record {
        used = refl;
        type = refl;
        size = refl;
        name = refl;
        n = refl;
        ext_off = refl;
        ext_cap = refl;
      })
      (λ _. SameNode-refl f)

module _ {ℓ} {D : Type ℓ} where
  write_page-Committed :
      (o : Option Page) (gen : ℕ) (v u : Volume D)
      → gen ≡ (v.gen + 1) % 2 ^ 64
      → v.mounted ≡ true
      → v.broken ≡ false
      → u.nodes.ndefer ≡ 0
      → Keeps v u
      → Committed v (write_page o gen u)
  unfolding write_page make_durable blk_put
  write_page-Committed none gen v u e m b z k = broken_off refl refl k.gen k.node k.pool
  write_page-Committed (some page) gen v u e m b z k =
      let at = record u { page = page } in
      let r = blk_put (gen % 2) page at in
      let kept = Keeps-trans v u at k (Keeps-io u.gm u.hint u.nodes.ndefer page u.itab u) in
      let w = Keeps-trans v at r.1 kept (Keeps-put (gen % 2) page at) in
      if_both (λ (r : ExfsStatus × Volume D). Committed v r) r.0 _ _
        (λ _.
          durable e refl (w.mounted ∙ m) (w.broken ∙ b) z refl
            (λ i p. let in_range : ltb i inodes ≡ true = ground arith in rw in_range refl)
            (λ i.
              SameNode-trans (v.nodes.files i) (r.1.nodes.files i) _ (w.node i)
                (clean_node i (r.1.nodes.files i)))
            w.pool)
        (λ _. broken_off refl refl w.gen w.node w.pool)

  apply-ndefer :
      (v : Volume D) → (apply_deferred v).0 ≡ true → (apply_deferred v).1.nodes.ndefer ≡ 0
  unfolding apply_deferred
  apply-ndefer v =
      if_both (λ (r : Bool × Volume D). r.0 ≡ true → r.1.nodes.ndefer ≡ 0)
        (apply_from v.nodes.ndefer 0 v.nodes.defer v.gm).0 _ _ (λ _ _. refl) (λ _ e. absurd (cc))

  write_table-ndefer :
      (n b area : ℕ) (v : Volume D) → (write_table n b area v).1.nodes.ndefer ≡ v.nodes.ndefer
  unfolding write_table blk_put
  write_table-ndefer zero b area v = refl
  write_table-ndefer (suc n) b area v =
      let r = blk_put (area + b) (λ j. v.itab (b * block_size + j)) v in
      if_both (λ (q : Bool × Volume D). q.1.nodes.ndefer ≡ v.nodes.ndefer) r.0 _ _
        (λ _. write_table-ndefer n (b + 1) area r.1) (λ _. refl)

  commit_map-Committed :
      (v u : Volume D)
      → v.mounted ≡ true
      → v.broken ≡ false
      → Keeps v u
      → Committed v (commit_map u)
  unfolding commit_map write_super
  commit_map-Committed v u m b k =
      let a = apply_deferred u in
      let k1 = Keeps-trans v u a.1 k (Keeps-apply u) in
      let fl = gmap_flush a.1.gm in
      let v2 = record a.1 { gm = fl.1 } in
      let k2 =
        Keeps-trans v a.1 v2 k1 (Keeps-io fl.1 a.1.hint a.1.nodes.ndefer a.1.page a.1.itab a.1) in
      let gen = (v2.gen + 1) % 2 ^ 64 in
      let v2' = record v2 { itab = encode_table v2.nodes v2.itab } in
      let t = write_table itab_blocks 0 (itab_area gen) v2' in
      let k2' =
        Keeps-trans v v2 v2' k2 (Keeps-io v2.gm v2.hint v2.nodes.ndefer v2.page v2'.itab v2) in
      let k3 = Keeps-trans v v2' t.1 k2' (Keeps-write_table itab_blocks 0 (itab_area gen) v2') in
      let P = λ (r : ExfsStatus × Volume D). Committed v r in
      if_both P (not a.0) _ _ (λ _. broken_off refl refl k1.gen k1.node k1.pool)
        λ applied.
          if_both P (not (is_done fl.0)) _ _ (λ _. broken_off refl refl k2.gen k2.node k2.pool)
            λ _.
              if_both P (not t.0) _ _ (λ _. broken_off refl refl k3.gen k3.node k3.pool)
                λ _.
                  write_page-Committed (sb_encode t.1.page (sb_fields gen t.1)) gen v t.1
                    (ap (λ (g : ℕ). (g + 1) % 2 ^ 64) k1.gen) m b
                    (write_table-ndefer itab_blocks 0 (itab_area gen) v2'
                      ∙ apply-ndefer u (ground arith))
                    k3

  commit_dirty-Committed :
      (v : Volume D) → v.mounted ≡ true → v.broken ≡ false → Committed v (commit_dirty v)
  unfolding commit_dirty
  commit_dirty-Committed v m b =
      let room = room_for (chains_needed inodes 0 0 v.nodes.files) (gmap_free_total v.gm) in
      if_both (λ (r : ExfsStatus × Volume D). Committed v r) (not (is_success room)) _ _
        (λ q. refused (ground arith))
        (λ _. go (commit_chains inodes 0 v) (commit_chains-Chained inodes 0 v))
    where
      go :
          (r : ExfsStatus × Volume D)
          → Chained v r
          → Committed v (if is_success r.0 then commit_map r.1 else r)
      go r (chained {w} k) = commit_map-Committed v w m b k
      go r (broke {e} {w} bad broken gen node pool) = rw bad (broken_off bad broken gen node pool)

  -- `exfs_commit` does one of four things to the volume in memory. On a mounted, sound volume with nothing to commit it
  -- returns EXFS_OK and changes nothing. It succeeds: then the generation has moved on by one (modulo
  -- 2^64), the inode table of record is the one of that generation, no file and not the volume is
  -- dirty, nothing awaits release, and every inode has the name, type and size it had, with the
  -- same slots of an unchanged pool of extents. It
  -- fails without a change. Or it fails with the volume marked broken, at the generation it had, and every
  -- inode with the same name, type, size and slots, and the pool as it was.
  pub exfs_commit-Committed : (v : Volume D) → Committed v (exfs_commit v)
  unfolding exfs_commit
  exfs_commit-Committed v =
      let P = λ (r : ExfsStatus × Volume D). Committed v r in
      if_both P (not v.mounted) _ _ (λ _. refused refl)
        λ m.
          if_both P v.broken _ _ (λ _. refused refl)
            λ b.
              if_both P (not v.nodes.dirty) _ _ (λ d. clean (ground arith) b (ground arith))
                λ _. commit_dirty-Committed v (ground arith) b
