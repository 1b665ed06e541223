-- ===== src/Loader/Unmap.antt =====
-- The unmapping in `rollback` of source/core/exb/load.c.
use xasmos.Base.{
  ℕ, ◌-◌, ◌<◌, ◌≡◌, ◌≢◌, refl, ◌∙◌, sym, ap, true, false, some, List, [], ◌∷◌, arith, ◌==◌,
  Bool-cases, inl, inr, map_all,
}
use xasmos.Ledger.Table.{slot_of}
use xasmos.Ledger.Pin.{lookup-set_map_count}
use xasmos.Paging.Spaces.{MapRec, XAspace, Vm, max_maps, xas_unmap}
use xasmos.Paging.Coherent.{Xas-cases}
use xasmos.Paging.Drops.{Dropped, is_at, xas_unmap-Outcome}
use xasmos.Sys.Calls.{Quotas}
use xasmos.Loader.Load.{unmap_all}
use xasmos.Loader.Amd64.{xlb_unmap, amd64}
use xasmos.Loader.Held.{has, Name, Held}

-- The space had no mapping before the load.
abbrev pub Unused : ℕ → Vm → Type 0
Unused pml4 v = (j : ℕ) → j < max_maps → (v.maps j).live ≡ true → (v.maps j).as_pml4 ≢ pml4

Held-Dropped :
    (pml4 va i : ℕ) (toks vas : List ℕ) (v w u : Vm)
    → Held pml4 toks (va ∷ vas) v w
    → Dropped i w u
    → i < max_maps
    → (v.maps i).live ≡ false
    → (w.maps i).live ≡ true
    → (w.maps i).virt ≡ va
    → Held pml4 toks vas v u
unfolding has
Held-Dropped pml4 va i toks vas v w u h d inside was live at =
    let l = w.kernel.ledger in
    let s = slot_of (w.maps i).tok in
    let n = (l.table s).map_count - 1 in
    let held = h.pinned i inside was live in
    let gone : (j : ℕ) → (u.maps j).live ≡ true → (j == i) ≡ false = λ j a.
      elim (Bool-cases (j == i)) [
        | inl e ↦ absurd (ground (arith, ap (λ (m : ℕ → MapRec). (m j).live) d.records, e, a))
        | inr e ↦ e
      ] in
    let other : (j : ℕ) → (j == i) ≡ false → u.maps j ≡ w.maps j = λ j e. rw (d.records, e) refl in
    let still : (j : ℕ) → (u.maps j).live ≡ true → u.maps j ≡ w.maps j =
      λ j a. other j (gone j a) in
    let before : (j : ℕ) → (u.maps j).live ≡ true → (w.maps j).live ≡ true =
      λ j a. sym (ap (λ (r : MapRec). r.live) (still j a)) ∙ a in
    record {
      coherent = d.coherent;
      fresh = h.fresh;
      kept = λ t q.
          let ne : (t == s) ≡ false = elim (Bool-cases (t == s)) [
            | inl e ↦ let e' : t ≡ s = ground arith in absurd (ground (arith, rw e' at q, held))
            | inr e ↦ e
          ] in
          rw (d.counted, ne) (h.kept t q);
      names = rw d.counted (
          map_all
            (λ t (q : Name l t). record {
              word = q.word;
              found = lookup-set_map_count t s n l ∙ q.found;
            })
            h.names);
      distinct = h.distinct;
      old = λ j q a. elim (Bool-cases (j == i)) [
        | inl e ↦ absurd (ground (arith, a, was))
        | inr e ↦ other j e ∙ h.old j q a
      ];
      place = λ j q e a. rw (still j a) (h.place j q e (before j a));
      listed = λ j q e a. elim (Bool-cases (va == (w.maps j).virt)) [
        | inl b ↦
            let same : j ≡ i = h.unique j i q inside e was (before j a) live (ground (arith, at)) in
            absurd (ground (arith, gone j a, same))
        | inr b ↦ rw (still j a) (ground (arith, h.listed j q e (before j a)))
      ];
      pinned = λ j q e a. rw (still j a) (h.pinned j q e (before j a));
      unique = λ j k p q e f a b same. h.unique j k p q e f (before j a) (before k b) (
          sym (ap (λ (r : MapRec). r.virt) (still j a))
          ∙ same
          ∙ ap (λ (r : MapRec). r.virt) (still k b));
    }

Held-absent :
    (pml4 va : ℕ) (toks vas : List ℕ) (v w : Vm)
    → Held pml4 toks (va ∷ vas) v w
    → ((j : ℕ) → j < max_maps → is_at pml4 va (w.maps j) ≡ false)
    → Held pml4 toks vas v w
unfolding has
Held-absent pml4 va toks vas v w h away = record {
  coherent = h.coherent;
  fresh = h.fresh;
  kept = h.kept;
  names = h.names;
  distinct = h.distinct;
  old = h.old;
  place = h.place;
  listed = λ j q e a. ground (arith, h.listed j q e a, away j q, h.place j q e a, a);
  pinned = h.pinned;
  unique = h.unique;
}

Held-unmap :
    (space : XAspace) (va : ℕ) (toks vas : List ℕ) (v w : Vm)
    → space.live ≡ true
    → Unused space.pml4_phys v
    → Held space.pml4_phys toks (va ∷ vas) v w
    → Held space.pml4_phys toks vas v (xlb_unmap space va w)
unfolding xlb_unmap
Held-unmap space va toks vas v w live unused h =
    let out = xas_unmap-Outcome space va w h.coherent in
    let (r, u) = xas_unmap (some space) va w in
    elim (Xas-cases r) [
      | inl e ↦
          let (i, f, d) = out.1 e in
          let was : (v.maps i).live ≡ false = elim (Bool-cases (v.maps i).live) [
            | inl a ↦ absurd (
                unused i f.inside a
                  (sym (ap (λ (m : MapRec). m.as_pml4) (h.old i f.inside a)) ∙ f.space))
            | inr a ↦ a
          ] in
          Held-Dropped space.pml4_phys va i toks vas v w u h d f.inside was f.live f.place
      | inr ne ↦ rw (out.2 ne) (Held-absent space.pml4_phys va toks vas v w h ((out.3 live).0 ne))
    ]

pub Held-unmap_all :
    (q : Quotas) (space : XAspace) (toks vas : List ℕ) (v w : Vm)
    → space.live ≡ true
    → Unused space.pml4_phys v
    → Held space.pml4_phys toks vas v w
    → Held space.pml4_phys toks [] v (unmap_all (amd64 q) space vas w)
unfolding unmap_all
Held-unmap_all q space toks [] v w live unused h = h
Held-unmap_all q space toks (va ∷ vas) v w live unused h =
    Held-unmap_all q space toks vas v (xlb_unmap space va w) live unused
      (Held-unmap space va toks vas v w live unused h)
