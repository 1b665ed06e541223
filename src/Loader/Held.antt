-- ===== src/Loader/Held.antt =====
-- A load under way (source/core/exb/load.c) on the kernel: which tokens and mappings it has added to
-- the state in which it began.
use xasmos.Base.{
  ℕ, ◌^◌, ◌<◌, ◌≡◌, refl, ◌∙◌, sym, Bool, true, false, ◌||◌, some, List, [], ◌∷◌, arith, ◌==◌,
  Bool-cases, inl, inr, AllOf, nil, cons, map_all,
}
use xasmos.Ledger.Table.{Ledger, XTokenEntry, lookup_live, slot_of}
use xasmos.Ledger.Ops.{Kernel}
use xasmos.Ledger.Inv.{lookup_live-some}
use xasmos.Ledger.Grant.{Granted}
use xasmos.Paging.Spaces.{Vm, max_maps}
use xasmos.Paging.Coherent.{IsCoherent, Unmoved}
use xasmos.Sys.Coherent.{with_kernel}

-- Whether an address is one of a list.
unfoldable pub has : List ℕ → ℕ → Bool
has [] x = false
has (y ∷ ys) x = (y == x) || has ys x

-- Whether a slot belongs to one of the tokens.
unfoldable pub mine : List ℕ → ℕ → Bool
mine [] s = false
mine (tok ∷ toks) s = (slot_of tok == s) || mine toks s

-- A live entry is as it was, and no entry has come to life.
pub record SameEntry (e e' : XTokenEntry) : Type 0 where
  pub live : e'.live ≡ e.live
  pub rest : e.live ≡ true → e' ≡ e

abbrev pub same_entry : (e : XTokenEntry) → SameEntry e e
same_entry e = record { live = refl; rest = λ _. refl }

-- The tokens lie in different slots.
pub data Apart : List ℕ → Type 0 where
  alone : Apart []
  beside :
      {tok : ℕ} {toks : List ℕ} → mine toks (slot_of tok) ≡ false → Apart toks → Apart (tok ∷ toks)

pub record Name (l : Ledger) (tok : ℕ) : Type 0 where
  pub word : tok < 2 ^ 64
  pub found : lookup_live tok l ≡ some (slot_of tok)

-- The state `w` of a load that began in `v`, holds the tokens `toks` and has mapped at `vas`.
pub record Held (pml4 : ℕ) (toks vas : List ℕ) (v w : Vm) : Type 0 where
  pub coherent : IsCoherent w
  pub fresh : (s : ℕ) → mine toks s ≡ true → (v.kernel.ledger.table s).live ≡ false
  pub kept :
      (s : ℕ) → mine toks s ≡ false → SameEntry (v.kernel.ledger.table s) (w.kernel.ledger.table s)
  pub names : AllOf (Name w.kernel.ledger) toks
  pub distinct : Apart toks
  pub old : (j : ℕ) → j < max_maps → (v.maps j).live ≡ true → w.maps j ≡ v.maps j
  pub place :
      (j : ℕ)
      → j < max_maps
      → (v.maps j).live ≡ false
      → (w.maps j).live ≡ true
      → (w.maps j).as_pml4 ≡ pml4
  pub listed :
      (j : ℕ)
      → j < max_maps
      → (v.maps j).live ≡ false
      → (w.maps j).live ≡ true
      → has vas (w.maps j).virt ≡ true
  pub pinned :
      (j : ℕ)
      → j < max_maps
      → (v.maps j).live ≡ false
      → (w.maps j).live ≡ true
      → mine toks (slot_of (w.maps j).tok) ≡ true
  pub unique :
      (i j : ℕ)
      → i < max_maps
      → j < max_maps
      → (v.maps i).live ≡ false
      → (v.maps j).live ≡ false
      → (w.maps i).live ≡ true
      → (w.maps j).live ≡ true
      → (w.maps i).virt ≡ (w.maps j).virt
      → i ≡ j

pub Held-start : (pml4 : ℕ) (v : Vm) → IsCoherent v → Held pml4 [] [] v v
unfolding mine has
Held-start pml4 v c = record {
  coherent = c;
  fresh = λ s h. absurd (cc);
  kept = λ s _. same_entry (v.kernel.ledger.table s);
  names = nil;
  distinct = alone;
  old = λ j _ _. refl;
  place = λ j _ d l. absurd (cc);
  listed = λ j _ d l. absurd (cc);
  pinned = λ j _ d l. absurd (cc);
  unique = λ i j _ _ d _ l _ _. absurd (cc);
}

-- The slots of held tokens are live.
pub mine_live :
    (toks : List ℕ) (l : Ledger) (s : ℕ)
    → AllOf (Name l) toks
    → mine toks s ≡ true
    → (l.table s).live ≡ true
unfolding mine
mine_live [] l s nil h = absurd (cc)
mine_live (tok ∷ toks) l s (cons n ns) h = elim (Bool-cases (slot_of tok == s)) [
  | inl e ↦ let e' : slot_of tok ≡ s = ground arith in rw (← e') (lookup_live-some tok l n.found).2
  | inr e ↦ mine_live toks l s ns (rw e at h)
]

-- A change of the kernel that leaves the ledger alone leaves the load where it was.
pub Held-ledger :
    (pml4 : ℕ) (toks vas : List ℕ) (v w u : Vm)
    → Held pml4 toks vas v w
    → Unmoved w u
    → IsCoherent u
    → Held pml4 toks vas v u
Held-ledger pml4 toks vas v w u h m c = record {
  coherent = c;
  fresh = h.fresh;
  kept = rw m.ledger h.kept;
  names = rw m.ledger h.names;
  distinct = h.distinct;
  old = rw m.records h.old;
  place = rw m.records h.place;
  listed = rw m.records h.listed;
  pinned = rw m.records h.pinned;
  unique = rw m.records h.unique;
}

-- A new token joins the held ones.
pub Held-granted :
    (pml4 owner n rights tok : ℕ) (toks vas : List ℕ) (v w : Vm) (k : Kernel)
    → Held pml4 toks vas v w
    → Granted owner n rights w.kernel tok k
    → IsCoherent (with_kernel w k)
    → Held pml4 (tok ∷ toks) vas v (with_kernel w k)
unfolding mine
Held-granted pml4 owner n rights tok toks vas v w k h g c =
    let found = lookup_live-some tok k.ledger g.found in
    let slot : slot_of tok ≡ g.slot = found.1 in
    let dead : mine toks g.slot ≡ false = elim (Bool-cases (mine toks g.slot)) [
      | inl e ↦ absurd (ground (arith, mine_live toks w.kernel.ledger g.slot h.names e, g.dead))
      | inr e ↦ e
    ] in
    let fresh : (v.kernel.ledger.table g.slot).live ≡ false =
      sym (h.kept g.slot dead).live ∙ g.dead in
    record {
      coherent = c;
      fresh = λ s m. elim (Bool-cases (g.slot == s)) [
        | inl e ↦ let e' : g.slot ≡ s = ground arith in rw (← e') fresh
        | inr e ↦ h.fresh s (rw (slot, e) at m)
      ];
      kept = λ s m.
          let ne : (s == g.slot) ≡ false = ground (arith, slot, m) in
          let rest : mine toks s ≡ false = ground (arith, slot, m) in
          rw (g.rest s ne) (h.kept s rest);
      names =
          cons (record { word = g.word; found = rw slot g.found })
            (map_all
              (λ t (q : Name w.kernel.ledger t). record {
                word = q.word;
                found =
                    g.others t
                      (ground (arith, (lookup_live-some t w.kernel.ledger q.found).2, g.dead))
                    ∙ q.found;
              })
              h.names);
      distinct = beside (rw slot dead) h.distinct;
      old = h.old;
      place = h.place;
      listed = h.listed;
      pinned = λ j q d l. ground (arith, h.pinned j q d l);
      unique = h.unique;
    }
