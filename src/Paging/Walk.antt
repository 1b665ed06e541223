-- ===== src/Paging/Walk.antt =====
-- The page tables of a space as a structure of levels, and the step of `map_page` of paging.c to the
-- next level.
pub mod Path
pub mod Pages
use xasmos.Base.{
  ℕ, zero, suc, ◌+◌, ◌-◌, ◌*◌, ◌/◌, ◌%◌, ◌^◌, ◌≤◌, ◌<◌, ◌≡◌, ◌≢◌, refl, ◌∙◌, sym, ap, Bool, true,
  false, not, ◌&&◌, ◌||◌, none, some, arith, ltb, leb, ◌==◌, if◌then◌else◌, if_both, Bool-cases,
  inl, inr, update,
}
use xasmos.Physical.State.{bit_test, frame_size}
use xasmos.Physical.Range.{in_range}
use xasmos.Physical.Laws.{Allocated}
use xasmos.Ledger.Ops.{Kernel}
use xasmos.Ledger.Sound.{IsSound}
use xasmos.Paging.Tables.{
  slot_word, index4, index3, index2, index1, entry, entry_addr, is_present, is_huge, set_entry,
  alloc_zero_table, next_level, walk_pte, set_leaf, map_page, xpt_upper, Xas, ok,
}
use xasmos.Paging.Create.{alloc_zero_table-Supply, alloc_zero_table-cleared}

-- The entries of the top table that belong to user space.
abbrev pub is_user : ℕ → ℕ → Bool
is_user l x = not (l == 2) || (leb 1 x && ltb x 256)

-- An entry of a table of level `l + 2` that points to a table of level `l + 1`.
pub record Points (lvl : ℕ → ℕ) (l e : ℕ) : Type 0 where
  pub level : lvl (entry_addr e / frame_size) ≡ l + 1
  pub small : l ≡ 0 → is_huge e ≡ false

-- `lvl` gives the frames of page tables their levels, from 4 for a top table to 1, and the other frames
-- 0: tables are in use, and a present user entry points to a table of the next level.
pub record IsTables (lvl : ℕ → ℕ) (k : Kernel) : Type 0 where
  pub used : (f : ℕ) → lvl f ≢ 0 → bit_test k.phys f ≡ false
  pub points :
      (t x l : ℕ)
      → t % frame_size ≡ 0
      → x < 512
      → lvl (t / frame_size) ≡ l + 2
      → is_user l x ≡ true
      → is_present (entry k t x) ≡ true
      → Points lvl l (entry k t x)

-- Tables stay tables, and a present entry of a table stays.
pub record Grows (lvl lvl' : ℕ → ℕ) (k k' : Kernel) : Type 0 where
  pub tables : IsTables lvl' k'
  pub levels : (f : ℕ) → lvl f ≢ 0 → lvl' f ≡ lvl f
  pub kept : (w : ℕ) → lvl (w / 512) ≢ 0 → is_present (k.ram w) ≡ true → k'.ram w ≡ k.ram w

pub Grows-trans : (a b c : ℕ → ℕ) (k l m : Kernel) → Grows a b k l → Grows b c l m → Grows a c k m
Grows-trans a b c k l m g h = record {
  tables = h.tables;
  levels = λ f n. h.levels f (λ z. n (sym (g.levels f n) ∙ z)) ∙ g.levels f n;
  kept = λ w n p.
      let same = g.kept w n p in
      h.kept w (λ z. n (sym (g.levels (w / 512) n) ∙ z)) (rw same p) ∙ same;
}

pub Grows-refl : (lvl : ℕ → ℕ) (k : Kernel) → IsTables lvl k → Grows lvl lvl k k
Grows-refl lvl k t = record { tables = t; levels = λ f n. refl; kept = λ w n p. refl }

-- What `next_level` does when it finds or makes a table.
pub record Stepped (lvl : ℕ → ℕ) (l t x : ℕ) (k : Kernel) (c : ℕ) (k' : Kernel) : Type 0 where
  pub next : ℕ → ℕ
  pub grows : Grows lvl next k k'
  pub aligned : c % frame_size ≡ 0
  pub level : next (c / frame_size) ≡ l + 1
  pub present : is_present (entry k' t x) ≡ true
  pub target : entry_addr (entry k' t x) ≡ c
  pub small : l ≡ 0 → is_huge (entry k' t x) ≡ false

-- A table that was there.
old_level :
    (lvl : ℕ → ℕ) (l t x : ℕ) (k : Kernel)
    → IsTables lvl k
    → t % frame_size ≡ 0
    → x < 512
    → lvl (t / frame_size) ≡ l + 2
    → is_user l x ≡ true
    → is_present (entry k t x) ≡ true
    → Stepped lvl l t x k (entry_addr (entry k t x)) k
old_level lvl l t x k tables a b c d p =
    let e = tables.points t x l a b c d p in
    record {
      next = lvl;
      grows = Grows-refl lvl k tables;
      aligned = omega arith;
      level = e.level;
      present = p;
      target = refl;
      small = e.small;
    }

-- A new table at `np`, below entry `x` of table `t`.
module _ (lvl : ℕ → ℕ) (l t x np : ℕ) (k q k' : Kernel) (tables : IsTables lvl k)
    (aligned : t % frame_size ≡ 0) (low : x < 512) (level : lvl (t / frame_size) ≡ l + 2)
    (absent : is_present (entry k t x) ≡ false) (taken : Allocated 1 k.phys np q.phys)
    (phys_same : k'.phys ≡ q.phys) (short : np < 2 ^ 52)
    (cleared : (w : ℕ) → q.ram w ≡ (if in_range (np / 8) 512 w then 0 else k.ram w))
    (linked : (w : ℕ) → k'.ram w ≡ (if w == slot_word t x then np + 7 else q.ram w)) where
  np_free : bit_test k.phys (np / frame_size) ≡ true
  np_free = taken.was_free (np / frame_size) (omega arith) (omega arith)

  -- The frame of a table is another one.
  elsewhere : (f : ℕ) → lvl f ≢ 0 → (f == np / frame_size) ≡ false
  elsewhere f n = elim (Bool-cases (f == np / frame_size)) [
    | inl e ↦
        let same : f ≡ np / frame_size = ground arith in
        absurd (ground (arith, tables.used f n, rw (← same) at np_free))
    | inr e ↦ e
  ]

  -- A word of a table, after the call.
  word : (w : ℕ) → lvl (w / 512) ≢ 0 → k'.ram w ≡ (if w == slot_word t x then np + 7 else k.ram w)
  word w n =
      let other = elsewhere (w / 512) n in
      let out : in_range (np / 8) 512 w ≡ false = ground (arith, other, taken.aligned) in
      rw (linked w) (rw (cleared w, out) refl)

  abbrev new_levels : ℕ → ℕ
  new_levels = update lvl (np / frame_size) (l + 1)

  link_word : entry k' t x ≡ np + 7
  link_word =
      ground (arith, word (slot_word t x) (λ z. absurd (omega (arith, aligned, low, frame_of, z))))
    where
      frame_of : lvl (slot_word t x / 512) ≡ l + 2
      frame_of = let same : slot_word t x / 512 ≡ t / frame_size = omega arith in rw same level

  linked_entries :
      (t' x' l' : ℕ)
      → t' % frame_size ≡ 0
      → x' < 512
      → new_levels (t' / frame_size) ≡ l' + 2
      → is_user l' x' ≡ true
      → is_present (entry k' t' x') ≡ true
      → Points new_levels l' (entry k' t' x')
  linked_entries t' x' l' a' low' lev' user p =
      let frame : slot_word t' x' / 512 ≡ t' / frame_size = omega arith in
      elim (Bool-cases (t' / frame_size == np / frame_size)) [
        | inl e ↦
            let at : in_range (np / 8) 512 (slot_word t' x') ≡ true =
              ground (arith, taken.aligned) in
            let far : (slot_word t' x' == slot_word t x) ≡ false =
              ground (arith, elsewhere (t / frame_size) (λ z. absurd (omega (arith, z, level)))) in
            let blank : entry k' t' x' ≡ 0 =
              rw (linked (slot_word t' x')) (rw (far, cleared (slot_word t' x'), at) refl) in
            absurd (ground (arith, rw blank at p))
        | inr e ↦
            let was : lvl (t' / frame_size) ≡ l' + 2 = rw e at lev' in
            let now = word (slot_word t' x') (λ z. absurd (omega (arith, rw frame at z, was))) in
            elim (Bool-cases (slot_word t' x' == slot_word t x)) [
              | inl s ↦
                  let same : t' / frame_size ≡ t / frame_size = ground (arith, frame) in
                  let l_same : l' ≡ l = omega (arith, was, level, ap lvl same) in
                  let value : entry k' t' x' ≡ np + 7 = rw s at now in
                  let home : entry_addr (np + 7) ≡ np = omega (arith, taken.aligned, short) in
                  let here : (np / frame_size == np / frame_size) ≡ true = ground arith in
                  rw value (record {
                    level = rw home (rw here (omega (arith, l_same)));
                    small = λ z. ground (arith, taken.aligned);
                  })
              | inr s ↦
                  let value : entry k' t' x' ≡ entry k t' x' = rw s at now in
                  let old = tables.points t' x' l' a' low' was user (rw (← value) p) in
                  let other =
                    elsewhere (entry_addr (entry k t' x') / frame_size)
                      (λ z. absurd (omega (arith, z, old.level))) in
                  rw value (record { level = rw other old.level; small = old.small })
            ]
      ]

  new_level : Stepped lvl l t x k np k'
  new_level =
      let here : (np / frame_size == np / frame_size) ≡ true = ground arith in
      let home : entry_addr (np + 7) ≡ np = omega (arith, taken.aligned, short) in
      record {
        next = new_levels;
        grows = record {
          tables = record {
            used = λ f n. elim (Bool-cases (f == np / frame_size)) [
              | inl e ↦ rw phys_same (ground (arith, taken.now_used.bit f))
              | inr e ↦
                  rw phys_same (ground (arith, taken.now_used.bit f, tables.used f (rw e at n)))
            ];
            points = linked_entries;
          };
          levels = λ f n. rw (elsewhere f n) refl;
          kept = λ w n p. elim (Bool-cases (w == slot_word t x)) [
            | inl e ↦
                let same : w ≡ slot_word t x = ground arith in
                absurd (ground (arith, rw same at p, absent))
            | inr e ↦ rw (word w n) (rw e refl)
          ];
        };
        aligned = taken.aligned;
        level = rw here refl;
        present = rw link_word (ground (arith, taken.aligned));
        target = rw link_word home;
        small = λ z. rw link_word (ground (arith, taken.aligned));
      }

pub next_level-Stepped :
    (lvl : ℕ → ℕ) (l t x : ℕ) (k : Kernel)
    → IsSound k.ledger k.phys
    → IsTables lvl k
    → t % frame_size ≡ 0
    → x < 512
    → lvl (t / frame_size) ≡ l + 2
    → is_user l x ≡ true
    → (next_level t x xpt_upper k).0 ≢ 0
    → Stepped lvl l t x k (next_level t x xpt_upper k).0 (next_level t x xpt_upper k).1
unfolding next_level
next_level-Stepped lvl l t x k v tables a b c d =
    let P = λ (r : ℕ × Kernel). r.0 ≢ 0 → Stepped lvl l t x k r.0 r.1 in
    let (np, q) = alloc_zero_table k in
    if_both P (is_present (entry k t x)) _ _ (λ p _. old_level lvl l t x k tables a b c d p)
      (λ p.
        if_both P (np == 0) _ _ (λ _ h. absurd (h refl))
          (λ z h.
            let taken = (alloc_zero_table-Supply k v).0 h in
            new_level lvl l t x np k q (set_entry t x (np + xpt_upper) q) tables a b c p taken refl
              (omega (arith, taken.inside, v.physical.fits)) (λ w. alloc_zero_table-cleared k w h)
              (λ w. refl)))

-- Setting an entry of a last-level table that was not present.
pub set_leaf-Grows :
    (lvl : ℕ → ℕ) (t x e : ℕ) (k : Kernel)
    → IsTables lvl k
    → t % frame_size ≡ 0
    → x < 512
    → lvl (t / frame_size) ≡ 1
    → is_present (entry k t x) ≡ false
    → Grows lvl lvl k (set_entry t x e k)
set_leaf-Grows lvl t x e k tables a low level absent = record {
  tables = record {
    used = tables.used;
    points = λ t' x' l' a' low' lev' user p.
        let far : (slot_word t' x' == slot_word t x) ≡ false =
          elim (Bool-cases (slot_word t' x' == slot_word t x)) [
            | inl s ↦
                let same : t' / frame_size ≡ t / frame_size = ground arith in
                absurd (omega (arith, ap lvl same, level, lev'))
            | inr s ↦ s
          ] in
        rw far (tables.points t' x' l' a' low' lev' user (rw far at p));
  };
  levels = λ f n. refl;
  kept = λ w n p. elim (Bool-cases (w == slot_word t x)) [
    | inl s ↦
        let same : w ≡ slot_word t x = ground arith in absurd (ground (arith, rw same at p, absent))
    | inr s ↦ rw s refl
  ];
}
