-- ===== src/Paging/Quiet.antt =====
-- The page-table functions of paging.c, as the ledger and the frame allocator see them.
use xasmos.Base.{
  ℕ, zero, suc, ◌+◌, ◌*◌, ◌≡◌, refl, ◌∙◌, Option, none, some, arith, ◌==◌, if_both, for_up,
  Bool-cases, inl, inr, add64,
}
use xasmos.Physical.State.{PhysBitmap, frame_size}
use xasmos.Physical.Alloc.{phys_alloc_frames}
use xasmos.Physical.Laws.{Allocated, phys_alloc_frames-Allocated, phys_alloc_frames_fails}
use xasmos.Ledger.Table.{Ledger}
use xasmos.Ledger.Ops.{Kernel}
use xasmos.Ledger.Sound.{IsSound}
use xasmos.Paging.Tables.{
  Xas, xpt_upper, index4, index3, index2, index1, entry, is_present, alloc_zero_table, next_level,
  set_leaf, map_page, walk_pte, clear_pte, unmap_page, unmap_pages,
}

-- The ledger is as before, and whatever ledger fitted the bitmap still fits it.
pub record IsQuiet (k k' : Kernel) : Type 0 where
  pub ledger : k'.ledger ≡ k.ledger
  pub sound : (l : Ledger) → IsSound l k.phys → IsSound l k'.phys

abbrev pub quiet_refl : (k : Kernel) → IsQuiet k k
quiet_refl k = record { ledger = refl; sound = λ l v. v }

pub IsQuiet-trans : (a b c : Kernel) → IsQuiet a b → IsQuiet b c → IsQuiet a c
IsQuiet-trans a b c f g = record {
  ledger = g.ledger ∙ f.ledger;
  sound = λ l v. g.sound l (f.sound l v);
}

-- Frames that were allocated and not sealed leave the ledger's frames alone.
pub Allocated-IsSound :
    (n addr : ℕ) (l : Ledger) (p q : PhysBitmap) → Allocated n p addr q → IsSound l p → IsSound l q
Allocated-IsSound n addr l p q a v = record {
  ledger = v.ledger;
  physical = a.valid;
  reserved = ground (arith, a.now_used.bit 0, v.reserved);
  backed = record {
    aligned = v.backed.aligned;
    inside = λ s h. ground (arith, v.backed.inside s, a.now_used.total);
    used = λ s g h. ground (arith, v.backed.used s g, a.now_used.bit g);
    apart = v.backed.apart;
  };
}

phys_alloc_frames-IsSound :
    (n : ℕ) (l : Ledger) (p : PhysBitmap) → IsSound l p → IsSound l (phys_alloc_frames n p).1
phys_alloc_frames-IsSound n l p v = elim (Bool-cases ((phys_alloc_frames n p).0 == 0)) [
  | inl e ↦ rw (phys_alloc_frames_fails n p v.physical v.reserved (ground arith)) v
  | inr e ↦
      Allocated-IsSound n (phys_alloc_frames n p).0 l p (phys_alloc_frames n p).1
        (phys_alloc_frames-Allocated n p v.physical (ground arith)) v
]

pub alloc_zero_table-IsQuiet : (k : Kernel) → IsQuiet k (alloc_zero_table k).1
unfolding alloc_zero_table
alloc_zero_table-IsQuiet k =
    if_both (λ (r : ℕ × Kernel). IsQuiet k r.1) ((phys_alloc_frames 1 k.phys).0 == 0) _ _
      (λ _. record { ledger = refl; sound = λ l. phys_alloc_frames-IsSound 1 l k.phys })
      (λ _. record { ledger = refl; sound = λ l. phys_alloc_frames-IsSound 1 l k.phys })

pub next_level-IsQuiet :
    (table idx flags : ℕ) (k : Kernel) → IsQuiet k (next_level table idx flags k).1
unfolding next_level
next_level-IsQuiet table idx flags k =
    let new = alloc_zero_table-IsQuiet k in
    if_both (λ (r : ℕ × Kernel). IsQuiet k r.1) (is_present (entry k table idx)) _ _
      (λ _. quiet_refl k)
      (λ _.
        if_both (λ (r : ℕ × Kernel). IsQuiet k r.1) ((alloc_zero_table k).0 == 0) _ _ (λ _. new)
          (λ _. record { ledger = new.ledger; sound = new.sound }))

set_leaf-IsQuiet : (pt va pa leaf : ℕ) (k : Kernel) → IsQuiet k (set_leaf pt va pa leaf k).1
unfolding set_leaf
set_leaf-IsQuiet pt va pa leaf k =
    if_both (λ (r : Xas × Kernel). IsQuiet k r.1) (is_present (entry k pt (index1 va))) _ _
      (λ _. quiet_refl k) (λ _. record { ledger = refl; sound = λ l v. v })

pub map_page-IsQuiet : (pml4 va pa leaf : ℕ) (k : Kernel) → IsQuiet k (map_page pml4 va pa leaf k).1
unfolding map_page
map_page-IsQuiet pml4 va pa leaf k =
    let (pdpt, k1) = next_level pml4 (index4 va) xpt_upper k in
    let (pd, k2) = next_level pdpt (index3 va) xpt_upper k1 in
    let (pt, k3) = next_level pd (index2 va) xpt_upper k2 in
    let q1 = next_level-IsQuiet pml4 (index4 va) xpt_upper k in
    let q2 = IsQuiet-trans k k1 k2 q1 (next_level-IsQuiet pdpt (index3 va) xpt_upper k1) in
    let q3 = IsQuiet-trans k k2 k3 q2 (next_level-IsQuiet pd (index2 va) xpt_upper k2) in
    if_both (λ (r : Xas × Kernel). IsQuiet k r.1) (pdpt == 0) _ _ (λ _. q1)
      (λ _.
        if_both (λ (r : Xas × Kernel). IsQuiet k r.1) (pd == 0) _ _ (λ _. q2)
          (λ _.
            if_both (λ (r : Xas × Kernel). IsQuiet k r.1) (pt == 0) _ _ (λ _. q3)
              (λ _. IsQuiet-trans k k3 _ q3 (set_leaf-IsQuiet pt va pa leaf k3))))

clear_pte-IsQuiet : (w : Option ℕ) (k : Kernel) → IsQuiet k (clear_pte w k)
unfolding clear_pte
clear_pte-IsQuiet none k = quiet_refl k
clear_pte-IsQuiet (some w) k =
    if_both (IsQuiet k) (is_present (k.ram w)) _ _ (λ _. record { ledger = refl; sound = λ l v. v })
      (λ _. quiet_refl k)

unmap_loop :
    (n i pml4 va : ℕ) (k : Kernel)
    → IsQuiet k (for_up n i (λ i k. unmap_page pml4 (add64 va (i * frame_size)) k) k)
unfolding for_up unmap_page
unmap_loop zero i pml4 va k = quiet_refl k
unmap_loop (suc n) i pml4 va k =
    let w = walk_pte pml4 (add64 va (i * frame_size)) k in
    IsQuiet-trans k (clear_pte w k) _ (clear_pte-IsQuiet w k)
      (unmap_loop n (i + 1) pml4 va (clear_pte w k))

pub unmap_pages-IsQuiet : (pml4 va pages : ℕ) (k : Kernel) → IsQuiet k (unmap_pages pml4 va pages k)
unfolding unmap_pages
unmap_pages-IsQuiet pml4 va pages k = unmap_loop pages 0 pml4 va k
