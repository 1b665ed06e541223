-- ===== src/Loader/Mapping.antt =====
-- A load under way (source/core/exb/load.c) that has mapped one more token.
use xasmos.Base.{
  ℕ, ◌+◌, ◌<◌, ◌≡◌, refl, ◌∙◌, sym, ap, Bool, true, false, List, ◌∷◌, arith, ◌==◌, Bool-cases, inl,
  inr, map_all,
}
use xasmos.Ledger.Table.{slot_of}
use xasmos.Ledger.Pin.{lookup-set_map_count}
use xasmos.Paging.Spaces.{MapRec, XAspace, Vm, max_maps}
use xasmos.Paging.Coherent.{IsCoherent, Mapped}
use xasmos.Loader.Held.{has, mine, Name, Held}

-- The record that a mapping fills is not live before the load either.
unused_before :
    (pml4 j : ℕ) (toks vas : List ℕ) (v w : Vm)
    → Held pml4 toks vas v w
    → j < max_maps
    → (w.maps j).live ≡ false
    → (v.maps j).live ≡ false
unused_before pml4 j toks vas v w h q dead = elim (Bool-cases (v.maps j).live) [
  | inl e ↦ absurd (ground (arith, ap (λ (r : MapRec). r.live) (h.old j q e), e, dead))
  | inr e ↦ e
]

-- A held token is mapped at an address that the load has not used.
pub Held-Mapped :
    (space : XAspace) (va tok perms : ℕ) (toks vas : List ℕ) (v w u : Vm)
    → Held space.pml4_phys (tok ∷ toks) vas v w
    → Mapped space va tok perms w u
    → IsCoherent u
    → has vas va ≡ false
    → Held space.pml4_phys (tok ∷ toks) (va ∷ vas) v u
unfolding mine has
Held-Mapped space va tok perms toks vas v w u h m c unlisted =
    let l = w.kernel.ledger in
    let n = (l.table (slot_of tok)).map_count + 1 in
    let was : (v.maps m.index).live ≡ false =
      unused_before space.pml4_phys m.index (tok ∷ toks) vas v w h m.inside m.unused in
    let other : (j : ℕ) → (j == m.index) ≡ false → u.maps j ≡ w.maps j =
      λ j e. rw (m.records, e) refl in
    let virt : (u.maps m.index).virt ≡ va = rw m.records (ground arith) in
    let space_of : (u.maps m.index).as_pml4 ≡ space.pml4_phys = rw m.records (ground arith) in
    let tok_of : (u.maps m.index).tok ≡ tok = rw m.records (ground arith) in
    let here : (j : ℕ) → (j == m.index) ≡ true → u.maps j ≡ u.maps m.index =
      λ j e. ap u.maps (ground arith) in
    let apart : (j : ℕ)
        → j < max_maps
        → (v.maps j).live ≡ false
        → (u.maps j).live ≡ true
        → (u.maps j).virt ≡ va
        → j ≡ m.index =
      λ j q d a e. elim (Bool-cases (j == m.index)) [
        | inl b ↦ ground arith
        | inr b ↦
            let old = h.listed j q d (ground (arith, other j b, a)) in
            let at : (w.maps j).virt ≡ va = sym (ap (λ (r : MapRec). r.virt) (other j b)) ∙ e in
            absurd (ground (arith, differ (rw at at old) unlisted))
      ] in
    record {
      coherent = c;
      fresh = h.fresh;
      kept = λ s q.
          let ne : (s == slot_of tok) ≡ false = ground arith in rw (m.counted, ne) (h.kept s q);
      names = rw m.counted (
          map_all
            (λ t (q : Name l t). record {
              word = q.word;
              found = lookup-set_map_count t (slot_of tok) n l ∙ q.found;
            })
            h.names);
      distinct = h.distinct;
      old = λ j q a. elim (Bool-cases (j == m.index)) [
        | inl b ↦ absurd (ground (arith, a, was))
        | inr b ↦ other j b ∙ h.old j q a
      ];
      place = λ j q d a. elim (Bool-cases (j == m.index)) [
        | inl b ↦ rw (here j b) space_of
        | inr b ↦ rw (other j b) (h.place j q d (ground (arith, other j b, a)))
      ];
      listed = λ j q d a. elim (Bool-cases (j == m.index)) [
        | inl b ↦ rw (here j b, virt) (ground arith)
        | inr b ↦ rw (other j b) (ground (arith, h.listed j q d (ground (arith, other j b, a))))
      ];
      pinned = λ j q d a. elim (Bool-cases (j == m.index)) [
        | inl b ↦ rw (here j b, tok_of) (ground arith)
        | inr b ↦ rw (other j b) (h.pinned j q d (ground (arith, other j b, a)))
      ];
      unique = λ i j p q d e a b same. elim (Bool-cases (j == m.index)) [
        | inl x ↦
            let at : (u.maps i).virt ≡ va = same ∙ ap (λ (r : MapRec). r.virt) (here j x) ∙ virt in
            apart i p d a at ∙ ground arith
        | inr x ↦ elim (Bool-cases (i == m.index)) [
          | inl y ↦
              let at : (u.maps j).virt ≡ va =
                sym same ∙ ap (λ (r : MapRec). r.virt) (here i y) ∙ virt in
              ground (arith, apart j q e b at)
          | inr y ↦
              h.unique i j p q d e (ground (arith, other i y, a)) (ground (arith, other j x, b)) (
                sym (ap (λ (r : MapRec). r.virt) (other i y))
                ∙ same
                ∙ ap (λ (r : MapRec). r.virt) (other j x))
        ]
      ];
    }
  where
    differ : {b : Bool} → b ≡ true → b ≡ false → true ≡ false
    differ p q = sym p ∙ q
