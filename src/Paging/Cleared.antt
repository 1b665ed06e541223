-- ===== src/Paging/Cleared.antt =====
-- What the removal of pages leaves in the page tables of paging.c.
use xasmos.Base.{
  ℕ, ◌*◌, ◌<◌, ◌≡◌, refl, ◌∙◌, Bool, false, ◌⊎◌, Option, none, some, arith, ◌==◌, Bool-cases, inl,
  inr, for_up_inv, add64,
}
use xasmos.Physical.State.{frame_size}
use xasmos.Ledger.Ops.{Kernel}
use xasmos.Paging.Tables.{
  slot_word, index4, index3, index2, entry, entry_addr, is_present, walk_pte, clear_pte, unmap_page,
  unmap_pages,
}

-- Whether the last-level entry that a walk finds is present.
abbrev pub leaf_present : Option ℕ → Kernel → Bool
leaf_present none k = false
leaf_present (some w) k = is_present (k.ram w)

-- Whether the tables below `pml4` map the page at `va`.
abbrev pub is_reachable : ℕ → ℕ → Kernel → Bool
is_reachable pml4 va k = leaf_present (walk_pte pml4 va k) k

-- Words of memory have become 0, and none has changed otherwise.
abbrev pub IsSparser : Kernel → Kernel → Type 0
IsSparser k k' = (w : ℕ) → (k'.ram w ≡ k.ram w) ⊎ (k'.ram w ≡ 0)

abbrev pub IsSparser-refl : (k : Kernel) → IsSparser k k
IsSparser-refl k w = inl refl

pub IsSparser-trans : (a b c : Kernel) → IsSparser a b → IsSparser b c → IsSparser a c
IsSparser-trans a b c f g w = elim (g w) [
  | inr z ↦ inr z
  | inl e ↦ elim (f w) [ inr z ↦ inr (e ∙ z) | inl d ↦ inl (e ∙ d) ]
]

-- A walk in sparser tables finds no present entry, or takes the same way.
sparser-walk :
    (pml4 va : ℕ) (k k' : Kernel)
    → IsSparser k k'
    → (is_reachable pml4 va k' ≡ false) ⊎ (walk_pte pml4 va k' ≡ walk_pte pml4 va k)
unfolding walk_pte
sparser-walk pml4 va k k' s =
    let e4 = entry k pml4 (index4 va) in
    let e3 = entry k (entry_addr e4) (index3 va) in
    elim (s (slot_word pml4 (index4 va))) [
      | inr z ↦ inl (rw z refl)
      | inl a ↦ elim (s (slot_word (entry_addr e4) (index3 va))) [
        | inr z ↦ inl (ground (arith, a, z))
        | inl b ↦ elim (s (slot_word (entry_addr e3) (index2 va))) [
          | inr z ↦ inl (ground (arith, a, b, z))
          | inl c ↦ inr (rw (a, b, c) refl)
        ]
      ]
    ]

pub sparser-unmapped :
    (pml4 va : ℕ) (k k' : Kernel)
    → IsSparser k k'
    → is_reachable pml4 va k ≡ false
    → is_reachable pml4 va k' ≡ false
sparser-unmapped pml4 va k k' s h = elim (sparser-walk pml4 va k k' s) [
  | inl gone ↦ gone
  | inr same ↦ rw same (still (walk_pte pml4 va k) h)
]
  where
    still : (o : Option ℕ) → leaf_present o k ≡ false → leaf_present o k' ≡ false
    still none h = refl
    still (some w) h = elim (s w) [ inl e ↦ rw e h | inr z ↦ rw z refl ]

clear_pte-IsSparser : (o : Option ℕ) (k : Kernel) → IsSparser k (clear_pte o k)
unfolding clear_pte
clear_pte-IsSparser none k w = inl refl
clear_pte-IsSparser (some x) k w = elim (Bool-cases (w == x)) [
  | inl e ↦ elim (Bool-cases (is_present (k.ram x))) [
    | inl p ↦ inr (rw (p, e) refl)
    | inr p ↦ inl (rw p refl)
  ]
  | inr e ↦ inl (ground (arith, e))
]

clear_pte-absent : (o : Option ℕ) (k : Kernel) → leaf_present o (clear_pte o k) ≡ false
unfolding clear_pte
clear_pte-absent none k = refl
clear_pte-absent (some w) k = ground arith

unmap_page-unmapped :
    (pml4 va : ℕ) (k : Kernel) → is_reachable pml4 va (unmap_page pml4 va k) ≡ false
unfolding unmap_page
unmap_page-unmapped pml4 va k =
    let o = walk_pte pml4 va k in
    elim (sparser-walk pml4 va k (clear_pte o k) (clear_pte-IsSparser o k)) [
      | inl gone ↦ gone
      | inr same ↦ rw same (clear_pte-absent o k)
    ]

-- What `unmap_pages` does to memory: the pages are no longer mapped, and words have become 0.
pub record Cleared (pml4 va pages : ℕ) (k k' : Kernel) : Type 0 where
  pub sparser : IsSparser k k'
  pub unmapped : (j : ℕ) → j < pages → is_reachable pml4 (add64 va (j * frame_size)) k' ≡ false

pub unmap_pages-Cleared :
    (pml4 va pages : ℕ) (k : Kernel) → Cleared pml4 va pages k (unmap_pages pml4 va pages k)
unfolding unmap_pages unmap_page
unmap_pages-Cleared pml4 va pages k =
    for_up_inv (λ i (k' : Kernel). Cleared pml4 va i k k')
      (λ i k. unmap_page pml4 (add64 va (i * frame_size)) k) pages 0 pages
      (λ i k' _ _ c.
        let at = add64 va (i * frame_size) in
        let more = clear_pte-IsSparser (walk_pte pml4 at k') k' in
        record {
          sparser = IsSparser-trans k k' (clear_pte (walk_pte pml4 at k') k') c.sparser more;
          unmapped = λ j p. elim (Bool-cases (j == i)) [
            | inl e ↦ let same : j ≡ i = ground arith in rw same (unmap_page-unmapped pml4 at k')
            | inr e ↦
                sparser-unmapped pml4 (add64 va (j * frame_size)) k'
                  (clear_pte (walk_pte pml4 at k') k') more (c.unmapped j (ground arith))
          ];
        })
      k (omega arith)
      (record { sparser = IsSparser-refl k; unmapped = λ j p. absurd (omega arith) })
