-- ===== src/Loader/Undo.antt =====
-- `rollback` of source/core/exb/load.c on the kernel.
use xasmos.Base.{
  ℕ, ◌<◌, ◌≡◌, ◌≢◌, refl, ◌∙◌, sym, ap, true, false, List, [], ◌∷◌, arith, ◌==◌, Bool-cases, inl,
  inr, AllOf, nil, cons, sum_below-eq-zero,
}
use xasmos.Bitmap.{weigh}
use xasmos.Ledger.Table.{Ledger, slot_of, wipe_slot}
use xasmos.Ledger.Ops.{Kernel, Release, ok, xtok_reclaim, release_impl}
use xasmos.Ledger.Inv.{lookup_live-some}
use xasmos.Ledger.Seal.{lookup-wipe_other}
use xasmos.Ledger.Release.{release_cases, reclaim_succeeds}
use xasmos.Paging.Spaces.{MapRec, XAspace, Vm, max_maps}
use xasmos.Paging.Pins.{holds, pins_of}
use xasmos.Paging.Coherent.{IsCoherent}
use xasmos.Sys.Calls.{Quotas}
use xasmos.Sys.Coherent.{with_kernel, release_impl-IsCoherent}
use xasmos.Loader.Load.{Txn, release_all, rollback}
use xasmos.Loader.Amd64.{xlb_release, amd64}
use xasmos.Loader.Held.{has, mine, SameEntry, Apart, beside, Name, Held}
use xasmos.Loader.Unmap.{Unused, Held-unmap_all}

-- A held token without a mapping of the load has no mapping at all.
Held-unpinned :
    (pml4 tok : ℕ) (toks : List ℕ) (v w : Vm)
    → IsCoherent v
    → Held pml4 (tok ∷ toks) [] v w
    → (w.kernel.ledger.table (slot_of tok)).map_count ≡ 0
unfolding pins_of weigh mine has
Held-unpinned pml4 tok toks v w c h =
    let s = slot_of tok in
    h.coherent.pinned.exact s
    ∙ sum_below-eq-zero max_maps _ (λ j q. elim (Bool-cases (holds (w.maps j) s)) [
      | inl e ↦ elim (Bool-cases (v.maps j).live) [
        | inl a ↦
            let t = c.pinned.mapped j q a in
            let same = ap (λ (r : MapRec). slot_of r.tok) (h.old j q a) in
            let slot : slot_of (v.maps j).tok ≡ s = ground (arith, same, e) in
            let dead = h.fresh s (ground arith) in
            absurd (
              ground
                (arith, (lookup_live-some (v.maps j).tok v.kernel.ledger t.found).2, slot, dead))
        | inr a ↦ absurd (ground (arith, h.listed j q a (ground arith)))
      ]
      | inr e ↦ rw e refl
    ])

names_wiped :
    (s : ℕ) (toks : List ℕ) (l : Ledger)
    → AllOf (Name l) toks
    → mine toks s ≡ false
    → AllOf (Name (wipe_slot s l)) toks
unfolding mine
names_wiped s [] l nil lone = nil
names_wiped s (tok ∷ toks) l (cons n ns) lone =
    let ne : slot_of tok ≢ s = ground arith in
    cons (record { word = n.word; found = lookup-wipe_other tok s l ne ∙ n.found })
      (names_wiped s toks l ns (ground arith))

Held-wiped :
    (pml4 tok : ℕ) (toks : List ℕ) (v w : Vm) (k : Kernel)
    → Held pml4 (tok ∷ toks) [] v w
    → AllOf (Name w.kernel.ledger) toks
    → mine toks (slot_of tok) ≡ false
    → Apart toks
    → k.ledger ≡ wipe_slot (slot_of tok) w.kernel.ledger
    → IsCoherent (with_kernel w k)
    → Held pml4 toks [] v (with_kernel w k)
unfolding mine has wipe_slot
Held-wiped pml4 tok toks v w k h ns lone apart wiped c =
    let s = slot_of tok in
    let new : (j : ℕ)
        → j < max_maps
        → (v.maps j).live ≡ false
        → (w.maps j).live ≡ true
        → true ≡ false =
      λ j q d a. sym (h.listed j q d a) in
    let here : (s == s) ≡ true = ground arith in
    record {
      coherent = c;
      fresh = λ t m. h.fresh t (ground (arith, m));
      kept = λ t m. elim (Bool-cases (t == s)) [
        | inl e ↦
            let e' : t ≡ s = ground arith in
            let dead = h.fresh s (ground arith) in
            rw (e', wiped, here)
              (record { live = sym dead; rest = λ a. absurd (ground (arith, a, dead)) })
        | inr e ↦ rw (wiped, e) (h.kept t (ground (arith, m, e)))
      ];
      names = rw wiped (unfold wipe_slot in names_wiped s toks w.kernel.ledger ns lone);
      distinct = apart;
      old = h.old;
      place = λ j q d a. absurd (ground (arith, new j q d a));
      listed = λ j q d a. h.listed j q d a;
      pinned = λ j q d a. absurd (ground (arith, new j q d a));
      unique = λ i j p q d e a b _. absurd (ground (arith, new i p d a));
    }

-- The release of the latest token.
Held-release :
    (pml4 tok : ℕ) (toks : List ℕ) (v w : Vm)
    → IsCoherent v
    → Held pml4 (tok ∷ toks) [] v w
    → Held pml4 toks [] v (xlb_release tok w)
unfolding xlb_release xtok_reclaim
Held-release pml4 tok toks v w c h = go h.names h.distinct
  where
    go :
        AllOf (Name w.kernel.ledger) (tok ∷ toks)
        → Apart (tok ∷ toks)
        → Held pml4 toks [] v (with_kernel w (release_impl tok false false 0 w.kernel).1)
    go (cons n ns) (beside lone apart) =
        release_cases
          (λ (r : Release × Kernel).
            r.0 ≡ ok → IsCoherent (with_kernel w r.1) → Held pml4 toks [] v (with_kernel w r.1))
          tok false false 0 w.kernel (λ r ne e _. absurd (ne e))
          (λ s e _ _ _ _ sound.
            let slot : s ≡ slot_of tok = sym (lookup_live-some tok w.kernel.ledger e).1 in
            Held-wiped pml4 tok toks v w _ h ns lone apart (rw slot refl) sound)
          (unfold xtok_reclaim in
            (reclaim_succeeds tok w.kernel).1
              (slot_of tok, n.found, Held-unpinned pml4 tok toks v w c h))
          (release_impl-IsCoherent tok false false 0 w h.coherent)

Held-release_all :
    (q : Quotas) (pml4 : ℕ) (toks : List ℕ) (v w : Vm)
    → IsCoherent v
    → Held pml4 toks [] v w
    → Held pml4 [] [] v (release_all (amd64 q) toks w)
unfolding release_all
Held-release_all q pml4 [] v w c h = h
Held-release_all q pml4 (tok ∷ toks) v w c h =
    Held-release_all q pml4 toks v (xlb_release tok w) c (Held-release pml4 tok toks v w c h)

-- Nothing that the load did is left: the live tokens and the live records are those from before.
pub record Undone (v w : Vm) : Type 0 where
  pub coherent : IsCoherent w
  pub entries : (s : ℕ) → SameEntry (v.kernel.ledger.table s) (w.kernel.ledger.table s)
  pub same : (j : ℕ) → j < max_maps → (w.maps j).live ≡ (v.maps j).live
  pub old : (j : ℕ) → j < max_maps → (v.maps j).live ≡ true → w.maps j ≡ v.maps j

Held-Undone : (pml4 : ℕ) (v w : Vm) → Held pml4 [] [] v w → Undone v w
unfolding mine has
Held-Undone pml4 v w h = record {
  coherent = h.coherent;
  entries = λ s. h.kept s refl;
  same = λ j q. elim (Bool-cases (v.maps j).live) [
    | inl a ↦ ap (λ (r : MapRec). r.live) (h.old j q a)
    | inr a ↦ elim (Bool-cases (w.maps j).live) [
      | inl b ↦ absurd (ground (arith, h.listed j q a b))
      | inr b ↦ b ∙ sym a
    ]
  ];
  old = h.old;
}

-- `rollback` undoes whatever the load has taken.
pub rollback-Undone :
    (q : Quotas) (space : XAspace) (t : Txn) (v w : Vm)
    → IsCoherent v
    → space.live ≡ true
    → Unused space.pml4_phys v
    → Held space.pml4_phys t.tok t.va v w
    → Undone v (rollback (amd64 q) space t w)
unfolding rollback
rollback-Undone q space t v w c live unused h =
    let unmapped = Held-unmap_all q space t.tok t.va v w live unused h in
    Held-Undone space.pml4_phys v _ (Held-release_all q space.pml4_phys t.tok v _ c unmapped)
