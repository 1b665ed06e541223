-- ===== src/Paging/Walk/Path.antt =====
-- The way of a walk through the page tables of paging.c, and what `map_page` adds.
use xasmos.Base.{
  ℕ, ◌+◌, ◌/◌, ◌%◌, ◌<◌, ◌≡◌, ◌≢◌, refl, ◌∙◌, true, false, some, arith, ◌==◌, if_both,
}
use xasmos.Physical.State.{frame_size}
use xasmos.Ledger.Ops.{Kernel}
use xasmos.Ledger.Sound.{IsSound}
use xasmos.Paging.Quiet.{next_level-IsQuiet}
use xasmos.Paging.Tables.{
  slot_word, index4, index3, index2, index1, entry, entry_addr, is_present, is_huge, set_entry,
  next_level, walk_pte, set_leaf, map_page, xpt_upper, Xas, ok,
}
use xasmos.Paging.Walk.{
  IsTables, Grows, Grows-trans, Stepped, next_level-Stepped, set_leaf-Grows, is_user,
}

-- The tables on the way to the entry `e` of the page at `va`.
pub record Path4 (lvl : ℕ → ℕ) (pml4 va e : ℕ) (k : Kernel) : Type 0 where
  pub pdpt : ℕ
  pub pd : ℕ
  pub pt : ℕ
  pub in4 : is_present (entry k pml4 (index4 va)) ≡ true
  pub to3 : entry_addr (entry k pml4 (index4 va)) ≡ pdpt
  pub at3 : pdpt % frame_size ≡ 0
  pub lvl3 : lvl (pdpt / frame_size) ≡ 3
  pub in3 : is_present (entry k pdpt (index3 va)) ≡ true
  pub to2 : entry_addr (entry k pdpt (index3 va)) ≡ pd
  pub at2 : pd % frame_size ≡ 0
  pub lvl2 : lvl (pd / frame_size) ≡ 2
  pub in2 : is_present (entry k pd (index2 va)) ≡ true
  pub small : is_huge (entry k pd (index2 va)) ≡ false
  pub to1 : entry_addr (entry k pd (index2 va)) ≡ pt
  pub at1 : pt % frame_size ≡ 0
  pub lvl1 : lvl (pt / frame_size) ≡ 1
  pub leaf : entry k pt (index1 va) ≡ e
  pub shown : is_present e ≡ true

-- The walk takes that way.
pub Path4-walk :
    (lvl : ℕ → ℕ) (pml4 va e : ℕ) (k : Kernel)
    → Path4 lvl pml4 va e k
    → (w : ℕ) × (walk_pte pml4 va k ≡ some w) × (k.ram w ≡ e)
unfolding walk_pte
Path4-walk lvl pml4 va e k p = (
  slot_word p.pt (index1 va),
  rw (p.in4, p.to3, p.in3, p.to2, p.in2, p.small, p.to1) refl,
  p.leaf,
)

-- A present entry of a table stays.
kept_entry :
    (lvl lvl' : ℕ → ℕ) (t x : ℕ) (k k' : Kernel)
    → Grows lvl lvl' k k'
    → t % frame_size ≡ 0
    → x < 512
    → lvl (t / frame_size) ≢ 0
    → is_present (entry k t x) ≡ true
    → entry k' t x ≡ entry k t x
kept_entry lvl lvl' t x k k' g a low n p =
    let frame : slot_word t x / 512 ≡ t / frame_size = omega arith in
    g.kept (slot_word t x) (λ z. n (rw frame at z)) p

pub Path4-Grows :
    (lvl lvl' : ℕ → ℕ) (pml4 va e : ℕ) (k k' : Kernel)
    → Grows lvl lvl' k k'
    → pml4 % frame_size ≡ 0
    → lvl (pml4 / frame_size) ≢ 0
    → Path4 lvl pml4 va e k
    → Path4 lvl' pml4 va e k'
Path4-Grows lvl lvl' pml4 va e k k' g a n p =
    let n3 : lvl (p.pdpt / frame_size) ≢ 0 = λ z. absurd (omega (arith, p.lvl3, z)) in
    let n2 : lvl (p.pd / frame_size) ≢ 0 = λ z. absurd (omega (arith, p.lvl2, z)) in
    let n1 : lvl (p.pt / frame_size) ≢ 0 = λ z. absurd (omega (arith, p.lvl1, z)) in
    let same4 = kept_entry lvl lvl' pml4 (index4 va) k k' g a (omega arith) n p.in4 in
    let same3 = kept_entry lvl lvl' p.pdpt (index3 va) k k' g p.at3 (omega arith) n3 p.in3 in
    let same2 = kept_entry lvl lvl' p.pd (index2 va) k k' g p.at2 (omega arith) n2 p.in2 in
    let same1 =
      kept_entry lvl lvl' p.pt (index1 va) k k' g p.at1 (omega arith) n1 (rw p.leaf p.shown) in
    record {
      pdpt = p.pdpt;
      pd = p.pd;
      pt = p.pt;
      in4 = rw same4 p.in4;
      to3 = rw same4 p.to3;
      at3 = p.at3;
      lvl3 = g.levels _ n3 ∙ p.lvl3;
      in3 = rw same3 p.in3;
      to2 = rw same3 p.to2;
      at2 = p.at2;
      lvl2 = g.levels _ n2 ∙ p.lvl2;
      in2 = rw same2 p.in2;
      small = rw same2 p.small;
      to1 = rw same2 p.to1;
      at1 = p.at1;
      lvl1 = g.levels _ n1 ∙ p.lvl1;
      leaf = same1 ∙ p.leaf;
      shown = p.shown;
    }

-- A page that `map_page` has mapped.
pub record PageMapped (lvl : ℕ → ℕ) (pml4 va e : ℕ) (k k' : Kernel) : Type 0 where
  pub next : ℕ → ℕ
  pub grows : Grows lvl next k k'
  pub path : Path4 next pml4 va e k'

leaf-PageMapped :
    (lvl : ℕ → ℕ) (pml4 va e pdpt pd pt : ℕ) (k k1 k2 k3 : Kernel)
    → pml4 % frame_size ≡ 0
    → lvl (pml4 / frame_size) ≡ 4
    → (s1 : Stepped lvl 2 pml4 (index4 va) k pdpt k1)
    → (s2 : Stepped s1.next 1 pdpt (index3 va) k1 pd k2)
    → (s3 : Stepped s2.next 0 pd (index2 va) k2 pt k3)
    → is_present (entry k3 pt (index1 va)) ≡ false
    → is_present e ≡ true
    → PageMapped lvl pml4 va e k (set_entry pt (index1 va) e k3)
leaf-PageMapped lvl pml4 va e pdpt pd pt k k1 k2 k3 a top s1 s2 s3 absent shown =
    let k4 = set_entry pt (index1 va) e k3 in
    let g4 =
      set_leaf-Grows s3.next pt (index1 va) e k3 s3.grows.tables s3.aligned (omega arith) s3.level
        absent in
    let g34 = Grows-trans s2.next s3.next s3.next k2 k3 k4 s3.grows g4 in
    let g24 = Grows-trans s1.next s2.next s3.next k1 k2 k4 s2.grows g34 in
    let n4 : s1.next (pml4 / frame_size) ≢ 0 = λ z. absurd (
      omega (
        arith,
        s1.grows.levels (pml4 / frame_size) (λ y. absurd (omega (arith, y, top))),
        z,
        top,
      )) in
    let n3 : s1.next (pdpt / frame_size) ≢ 0 = λ z. absurd (omega (arith, s1.level, z)) in
    let m3 : s2.next (pdpt / frame_size) ≡ 3 = s2.grows.levels _ n3 ∙ s1.level in
    let l3 : s3.next (pdpt / frame_size) ≡ 3 =
      s3.grows.levels _ (λ z. absurd (omega (arith, m3, z))) ∙ m3 in
    let n2 : s2.next (pd / frame_size) ≢ 0 = λ z. absurd (omega (arith, s2.level, z)) in
    let l2 : s3.next (pd / frame_size) ≡ 2 = s3.grows.levels _ n2 ∙ s2.level in
    let same4 =
      kept_entry s1.next s3.next pml4 (index4 va) k1 k4 g24 a (omega arith) n4 s1.present in
    let same3 =
      kept_entry s2.next s3.next pdpt (index3 va) k2 k4 g34 s1.aligned (omega arith)
        (λ z. absurd (omega (arith, m3, z))) s2.present in
    let same2 =
      kept_entry s3.next s3.next pd (index2 va) k3 k4 g4 s2.aligned (omega arith)
        (λ z. absurd (omega (arith, l2, z))) s3.present in
    let here : (slot_word pt (index1 va) == slot_word pt (index1 va)) ≡ true = ground arith in
    record {
      next = s3.next;
      grows = Grows-trans lvl s1.next s3.next k k1 k4 s1.grows g24;
      path = record {
        pdpt = pdpt;
        pd = pd;
        pt = pt;
        in4 = rw same4 s1.present;
        to3 = rw same4 s1.target;
        at3 = s1.aligned;
        lvl3 = l3;
        in3 = rw same3 s2.present;
        to2 = rw same3 s2.target;
        at2 = s2.aligned;
        lvl2 = l2;
        in2 = rw same2 s3.present;
        small = rw same2 (s3.small refl);
        to1 = rw same2 s3.target;
        at1 = s3.aligned;
        lvl1 = s3.level;
        leaf = rw here refl;
        shown = shown;
      };
    }

pub map_page-PageMapped :
    (lvl : ℕ → ℕ) (pml4 va pa leaf : ℕ) (k : Kernel)
    → IsSound k.ledger k.phys
    → IsTables lvl k
    → pml4 % frame_size ≡ 0
    → lvl (pml4 / frame_size) ≡ 4
    → is_user 2 (index4 va) ≡ true
    → leaf % 2 ≡ 1
    → (map_page pml4 va pa leaf k).0 ≡ ok
    → PageMapped lvl pml4 va (entry_addr pa + leaf) k (map_page pml4 va pa leaf k).1
unfolding map_page set_leaf
map_page-PageMapped lvl pml4 va pa leaf k v tables a top user odd =
    let (pdpt, k1) = next_level pml4 (index4 va) xpt_upper k in
    let (pd, k2) = next_level pdpt (index3 va) xpt_upper k1 in
    let (pt, k3) = next_level pd (index2 va) xpt_upper k2 in
    let e = entry_addr pa + leaf in
    let q1 = next_level-IsQuiet pml4 (index4 va) xpt_upper k in
    let q2 = next_level-IsQuiet pdpt (index3 va) xpt_upper k1 in
    let v1 : IsSound k1.ledger k1.phys = rw q1.ledger (q1.sound _ v) in
    let v2 : IsSound k2.ledger k2.phys = rw q2.ledger (q2.sound _ v1) in
    let P = λ (r : Xas × Kernel). r.0 ≡ ok → PageMapped lvl pml4 va e k r.1 in
    if_both P (pdpt == 0) _ _ (λ _ h. absurd (cc))
      (λ z1.
        if_both P (pd == 0) _ _ (λ _ h. absurd (cc))
          (λ z2.
            if_both P (pt == 0) _ _ (λ _ h. absurd (cc))
              (λ z3.
                if_both P (is_present (entry k3 pt (index1 va))) _ _ (λ _ h. absurd (cc))
                  (λ absent _.
                    let s1 =
                      next_level-Stepped lvl 2 pml4 (index4 va) k v tables a (omega arith) top user
                        (ground arith) in
                    let s2 =
                      next_level-Stepped s1.next 1 pdpt (index3 va) k1 v1 s1.grows.tables s1.aligned
                        (omega arith) s1.level refl (ground arith) in
                    let s3 =
                      next_level-Stepped s2.next 0 pd (index2 va) k2 v2 s2.grows.tables s2.aligned
                        (omega arith) s2.level refl (ground arith) in
                    leaf-PageMapped lvl pml4 va e pdpt pd pt k k1 k2 k3 a top s1 s2 s3 absent
                      (ground arith)))))
