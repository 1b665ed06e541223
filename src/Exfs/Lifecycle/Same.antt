-- ===== src/Exfs/Lifecycle/Same.antt =====
-- source/core/exfs/exfs.c: changes that leave the names alone, with those of the pool among them.
use xasmos.Base.{
  ℕ, zero, suc, ◌+◌, ◌≡◌, refl, sym, ◌∙◌, Option, none, some, List, ◌==◌, inl, inr, Bool-cases,
  if_both, ==_iff,
}
use xasmos.Exfs.Superblock.{inodes}
use xasmos.Exfs.Volume.{ExfsFile, Nodes, set_file}
use xasmos.Exfs.Pool.{
  Slice, collect, sort_order, copy_slice, place_slice, pack, pack_from, clear_pool, pool_compact,
  pool_find, slice_cap_for, reserve_at, reserve_in, reserve_cap, pool_reserve,
}
use xasmos.Exfs.Names.Stat.{Holds}
use xasmos.Exfs.Names.Tree.{IsTree}

pub record SameName (f g : ExfsFile) : Type 0 where
  pub used : g.used ≡ f.used
  pub type : g.type ≡ f.type
  pub name : g.name ≡ f.name

pub SameName-refl : (f : ExfsFile) → SameName f f
SameName-refl f = record { used = refl; type = refl; name = refl }

pub SameName-sym : (f g : ExfsFile) → SameName f g → SameName g f
SameName-sym f g h = record { used = sym (h.used); type = sym (h.type); name = sym (h.name) }

-- Every inode keeps its name, type and use.
unfoldable pub SameNames : Nodes → Nodes → Type 0
SameNames s t = (i : ℕ) → SameName (s.files i) (t.files i)

pub SameNames-refl : (s : Nodes) → SameNames s s
unfolding SameNames
SameNames-refl s i = SameName-refl (s.files i)

pub SameNames-trans : (s t u : Nodes) → SameNames s t → SameNames t u → SameNames s u
unfolding SameNames
SameNames-trans s t u a b i = record {
  used = (b i).used ∙ (a i).used;
  type = (b i).type ∙ (a i).type;
  name = (b i).name ∙ (a i).name;
}

pub SameNames-files : (s t : Nodes) → t.files ≡ s.files → SameNames s t
unfolding SameNames
SameNames-files s t e i = rw e (SameName-refl (s.files i))

-- So with a file that is replaced.
pub SameNames-set :
    (i : ℕ) (f : ExfsFile) (s : Nodes) → SameName (s.files i) f → SameNames s (set_file i f s)
unfolding SameNames
SameNames-set i f s h j = elim (Bool-cases (j == i)) [
  | inl e ↦ let same : j ≡ i = (==_iff j i).0 e in rw e (rw same h)
  | inr e ↦ rw e (SameName-refl (s.files j))
]

Holds-same :
    (f g : ℕ → ExfsFile) (i : ℕ) (s : List ℕ) → SameName (f i) (g i) → Holds f i s → Holds g i s
unfolding Holds
Holds-same f g i s h held = (held.0, h.used ∙ held.1, rw (h.name) held.2)

-- The names still form a tree.
pub IsTree-same : (s t : Nodes) → SameNames s t → IsTree s.files → IsTree t.files
unfolding SameNames
IsTree-same s t same tree =
    let there = λ (i : ℕ) (n : List ℕ). Holds-same s.files t.files i n (same i) in
    let back = λ (i : ℕ) (n : List ℕ).
      Holds-same t.files s.files i n (SameName-sym (s.files i) (t.files i) (same i)) in
    record {
      spelled = λ i p u.
          let (n, x, h) = tree.spelled i p (sym ((same i).used) ∙ u) in (n, x, there i n h);
      unique = λ i j n x h h'. tree.unique i j n x (back i n h) (back j n h');
      named = λ i n x h. tree.named i n x (back i n h);
      rooted = λ i n x h.
          let p = tree.rooted i n x (back i n h) in
          record {
            path = p.path;
            leaf = p.leaf;
            split = p.split;
            simple = p.simple;
            found = elim (p.found) [
              | inl root ↦ inl root
              | inr (k, at, dir) ↦ inr (k, there k p.path at, (same k).type ∙ dir)
            ];
          };
    }

SameNames-place : (i cursor : ℕ) (s : Nodes) → SameNames s (place_slice i cursor s)
unfolding copy_slice SameNames
SameNames-place i cursor s =
    let f = s.files i in
    if_both (λ (t : Nodes). SameNames s t) (f.ext_off == cursor) _ _ (λ _. SameNames-refl s)
      (λ _.
        SameNames-set i (record f { ext_off = cursor }) s
          (record { used = refl; type = refl; name = refl }))

SameNames-pack_from :
    (n a : ℕ) (order : ℕ → ℕ) (c : ℕ × Nodes) → SameNames c.1 (pack_from n a order c).1
unfolding pack_from pack
SameNames-pack_from zero a order c = SameNames-refl c.1
SameNames-pack_from (suc n) a order c =
    let t = place_slice (order a) c.0 c.1 in
    let u = (pack (order a) c).1 in
    SameNames-trans c.1 u _
      (SameNames-trans c.1 t u (SameNames-place (order a) c.0 c.1) (SameNames-files t u refl))
      (SameNames-pack_from n (a + 1) order (pack (order a) c))

SameNames-compact : (junk : ℕ → ℕ) (s : Nodes) → SameNames s (pool_compact junk s)
unfolding pool_compact
SameNames-compact junk s =
    let o = collect inodes 0 s.files (junk, 0) in
    SameNames-trans s (clear_pool s) _ (SameNames-files s (clear_pool s) refl)
      (SameNames-pack_from o.1 0 (sort_order o.1 s.files o.0) (0, clear_pool s))

SameNames-reserve_at : (cap : ℕ) (o : Option ℕ) (s : Nodes) → SameNames s (reserve_at cap o s).1
SameNames-reserve_at cap none s = SameNames-refl s
SameNames-reserve_at cap (some off) s = SameNames-files s (reserve_at cap (some off) s).1 refl

SameNames-reserve_in :
    (junk : ℕ → ℕ) (cap : ℕ) (o : Option ℕ) (s : Nodes) → SameNames s (reserve_in junk cap o s).1
unfolding reserve_in
SameNames-reserve_in junk cap (some off) s = SameNames-reserve_at cap (some off) s
SameNames-reserve_in junk cap none s =
    let t = pool_compact junk s in
    SameNames-trans s t _ (SameNames-compact junk s)
      (SameNames-reserve_at cap (pool_find cap t.pool_used) t)

SameNames-reserve_cap :
    (junk : ℕ → ℕ) (o : Option ℕ) (s : Nodes) → SameNames s (reserve_cap junk o s).1
unfolding reserve_cap
SameNames-reserve_cap junk none s = SameNames-refl s
SameNames-reserve_cap junk (some cap) s =
    SameNames-reserve_in junk cap (pool_find cap s.pool_used) s

-- Reserving a slice moves extent lists, but no name.
pub SameNames-reserve : (junk : ℕ → ℕ) (n : ℕ) (s : Nodes) → SameNames s (pool_reserve junk n s).1
unfolding pool_reserve
SameNames-reserve junk n s =
    if_both (λ (r : Option Slice × Nodes). SameNames s r.1) (n == 0) _ _ (λ _. SameNames-refl s)
      (λ _. SameNames-reserve_cap junk (slice_cap_for n) s)
