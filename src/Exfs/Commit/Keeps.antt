-- ===== src/Exfs/Commit/Keeps.antt =====
-- source/core/exfs/exfs.c: what the steps of a commit leave alone.
use xasmos.Base.{
  ℕ, zero, suc, ◌+◌, ◌*◌, ◌≡◌, refl, ◌∙◌, Bool, not, ◌==◌, update, inl, inr, Bool-cases, if_both,
  ==_iff, add64,
}
use xasmos.Block.Device.{Buffer}
use xasmos.Exfs.Format.{block_size}
use xasmos.Exfs.Volume.{
  ExfsFile, ExfsExtent, Volume, blk_put, take_extent, set_file, fext, taken_extent,
}
use xasmos.Exfs.GroupMap.{GMap}
use xasmos.Exfs.GroupOps.{Taken, got, missed, gmap_take}
use xasmos.Exfs.Inodes.{apply_from, apply_deferred}
use xasmos.Exfs.Commit.{set_chain, take_chain, chain_page, write_chain, write_table}

-- The file but for its chain and its dirty mark.
pub record SameNode (f g : ExfsFile) : Type 0 where
  pub used : g.used ≡ f.used
  pub type : g.type ≡ f.type
  pub size : g.size ≡ f.size
  pub name : g.name ≡ f.name
  pub n : g.n ≡ f.n
  pub ext_off : g.ext_off ≡ f.ext_off
  pub ext_cap : g.ext_cap ≡ f.ext_cap

pub SameNode-refl : (f : ExfsFile) → SameNode f f
SameNode-refl f = record {
  used = refl;
  type = refl;
  size = refl;
  name = refl;
  n = refl;
  ext_off = refl;
  ext_cap = refl;
}

pub SameNode-trans : (f g h : ExfsFile) → SameNode f g → SameNode g h → SameNode f h
SameNode-trans f g h a b = record {
  used = b.used ∙ a.used;
  type = b.type ∙ a.type;
  size = b.size ∙ a.size;
  name = b.name ∙ a.name;
  n = b.n ∙ a.n;
  ext_off = b.ext_off ∙ a.ext_off;
  ext_cap = b.ext_cap ∙ a.ext_cap;
}

same_chain : (f : ExfsFile) (c : ℕ → ℕ) → SameNode f (record f { chain = c })
same_chain f c = record {
  used = refl;
  type = refl;
  size = refl;
  name = refl;
  n = refl;
  ext_off = refl;
  ext_cap = refl;
}

-- The generation, the flags, the extent lists and the nodes.
pub record Keeps {ℓ} {D : Type ℓ} (v w : Volume D) : Type 0 where
  pub gen : w.gen ≡ v.gen
  pub mounted : w.mounted ≡ v.mounted
  pub broken : w.broken ≡ v.broken
  pub pool : w.nodes.pool ≡ v.nodes.pool
  pub node : (i : ℕ) → SameNode (v.nodes.files i) (w.nodes.files i)

module _ {ℓ} {D : Type ℓ} where
  pub Keeps-refl : (v : Volume D) → Keeps v v
  Keeps-refl v = record {
    gen = refl;
    mounted = refl;
    broken = refl;
    pool = refl;
    node = λ i. SameNode-refl (v.nodes.files i);
  }

  pub Keeps-trans : (u v w : Volume D) → Keeps u v → Keeps v w → Keeps u w
  Keeps-trans u v w a b = record {
    gen = b.gen ∙ a.gen;
    mounted = b.mounted ∙ a.mounted;
    broken = b.broken ∙ a.broken;
    pool = b.pool ∙ a.pool;
    node = λ i.
        SameNode-trans (u.nodes.files i) (v.nodes.files i) (w.nodes.files i) (a.node i) (b.node i);
  }

  -- A change of the group map, the buffers and the count of deferred extents.
  pub Keeps-io :
      (gm : GMap D) (hint nd : ℕ) (page itab : Buffer) (v : Volume D)
      → Keeps v (record v {
        gm = gm;
        hint = hint;
        page = page;
        itab = itab;
        nodes = record v.nodes { ndefer = nd };
      })
  Keeps-io gm hint nd page itab v = record {
    gen = refl;
    mounted = refl;
    broken = refl;
    pool = refl;
    node = λ i. SameNode-refl (v.nodes.files i);
  }

  -- A change of one file that keeps its node.
  pub Keeps-file :
      (i : ℕ) (f : ExfsFile) (v : Volume D)
      → SameNode (v.nodes.files i) f
      → Keeps v (record v { nodes = set_file i f v.nodes })
  Keeps-file i f v h = record {
    gen = refl;
    mounted = refl;
    broken = refl;
    pool = refl;
    node = λ j. elim (Bool-cases (j == i)) [
      | inl e ↦ rw e (let same : j ≡ i = (==_iff j i).0 e in rw same h)
      | inr e ↦ rw e (SameNode-refl (v.nodes.files j))
    ];
  }

  Keeps-take : (need : ℕ) (out : ExfsExtent) (v : Volume D) → Keeps v (take_extent need out v).2
  unfolding take_extent taken_extent
  Keeps-take need out v = go (gmap_take v.hint need v.gm).0
    where
      gm : GMap D
      gm = (gmap_take v.hint need v.gm).1

      go : (r : Taken) → Keeps v (taken_extent r out (record v { gm = gm })).2
      go (missed _) = Keeps-io gm v.hint v.nodes.ndefer v.page v.itab v
      go (got start len) = Keeps-io gm (add64 start len) v.nodes.ndefer v.page v.itab v

  Keeps-page : (page : Buffer) (v : Volume D) → Keeps v (record v { page = page })
  Keeps-page page v = Keeps-io v.gm v.hint v.nodes.ndefer page v.itab v

  pub Keeps-put : (b : ℕ) (buf : Buffer) (v : Volume D) → Keeps v (blk_put b buf v).1
  unfolding blk_put
  Keeps-put b buf v = Keeps-io (blk_put b buf v).1.gm v.hint v.nodes.ndefer v.page v.itab v

  pub Keeps-take_chain : (n k i : ℕ) (v : Volume D) → Keeps v (take_chain n k i v).1
  unfolding take_chain
  Keeps-take_chain zero k i v = Keeps-refl v
  Keeps-take_chain (suc n) k i v =
      let out : ExfsExtent = record { start = 0; len = 0 } in
      let w = (take_extent 1 out v).2 in
      let first = Keeps-take 1 out v in
      let b = (take_extent 1 out v).1.start in
      let f = w.nodes.files i in
      let step =
        Keeps-file i (record f { chain = update f.chain k b }) w
          (same_chain f (update f.chain k b)) in
      if_both (λ (r : Bool × Volume D). Keeps v r.1) (not ((take_extent 1 out v).0 == 1)) _ _
        (λ _. first)
        (λ _. Keeps-trans v w _ first (
          Keeps-trans w (set_chain i k b w) _ step
            (Keeps-take_chain n (k + 1) i (set_chain i k b w))))

  pub Keeps-write_chain : (n k nind i : ℕ) (v : Volume D) → Keeps v (write_chain n k nind i v).1
  unfolding write_chain
  Keeps-write_chain zero k nind i v = Keeps-refl v
  Keeps-write_chain (suc n) k nind i v =
      let f = v.nodes.files i in
      let page = chain_page f (fext v.nodes f) nind k v.page in
      let u = record v { page = page } in
      let r = blk_put (f.chain k) page u in
      let first = Keeps-trans v u r.1 (Keeps-page page v) (Keeps-put (f.chain k) page u) in
      if_both (λ (r : Bool × Volume D). Keeps v r.1) r.0 _ _
        (λ _. Keeps-trans v r.1 _ first (Keeps-write_chain n (k + 1) nind i r.1)) (λ _. first)

  pub Keeps-write_table : (n b area : ℕ) (v : Volume D) → Keeps v (write_table n b area v).1
  unfolding write_table
  Keeps-write_table zero b area v = Keeps-refl v
  Keeps-write_table (suc n) b area v =
      let r = blk_put (area + b) (λ j. v.itab (b * block_size + j)) v in
      let first = Keeps-put (area + b) (λ j. v.itab (b * block_size + j)) v in
      if_both (λ (r : Bool × Volume D). Keeps v r.1) r.0 _ _
        (λ _. Keeps-trans v r.1 _ first (Keeps-write_table n (b + 1) area r.1)) (λ _. first)

  pub Keeps-apply : (v : Volume D) → Keeps v (apply_deferred v).1
  unfolding apply_deferred
  Keeps-apply v =
      let gm = (apply_from v.nodes.ndefer 0 v.nodes.defer v.gm).1 in
      if_both (λ (r : Bool × Volume D). Keeps v r.1)
        (apply_from v.nodes.ndefer 0 v.nodes.defer v.gm).0 _ _
        (λ _. Keeps-io gm v.hint 0 v.page v.itab v)
        (λ _. Keeps-io gm v.hint v.nodes.ndefer v.page v.itab v)
