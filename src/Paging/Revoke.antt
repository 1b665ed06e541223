-- ===== src/Paging/Revoke.antt =====
-- `xas_revoke_token` of paging.c.
use xasmos.Base.{
  add64, ◌*◌, false, ℕ, ◌+◌, ◌-◌, ◌^◌, ◌≤◌, ◌<◌, ◌≡◌, ◌≢◌, refl, ◌∙◌, sym, true, ◌&&◌, some, arith,
  ◌==◌, if_both, Bool-cases, inl, inr, for_up_inv, sum_below-eq-zero,
}
use xasmos.Bitmap.{weigh}
use xasmos.Ledger.Table.{Ledger, lookup_live, slot_of, gen_of}
use xasmos.Ledger.Ops.{Kernel, set_map_count}
use xasmos.Physical.State.{frame_size}
use xasmos.Ledger.Inv.{lookup_live-some}
use xasmos.Paging.Spaces.{MapRec, Vm, max_maps, drop_record, revoke_record, xas_revoke_token}
use xasmos.Paging.Pins.{holds, pins_of, IsPinned}
use xasmos.Paging.Repin.{IsRepinned, IsRepinned-refl, IsRepinned-trans, repinned_lookup}
use xasmos.Paging.Coherent.{IsCoherent}
use xasmos.Paging.Cleared.{
  is_reachable, IsSparser, IsSparser-refl, IsSparser-trans, sparser-unmapped,
}
use xasmos.Paging.Drops.{drop_record-Dropped, Dropped-IsRepinned}

-- If the record is live and names the token, its space maps none of its pages any more.
abbrev pub Unreachable : ℕ → MapRec → Kernel → Type 0
Unreachable tok r k =
    r.live ≡ true
    → r.tok ≡ tok
    → (p : ℕ) → p < r.pages
    → is_reachable r.as_pml4 (add64 r.virt (p * frame_size)) k ≡ false

-- What `xas_revoke_token` has done when the loop has passed the records below `i`.
pub record Revoking (tok i n : ℕ) (v v' : Vm) : Type 0 where
  pub coherent : IsCoherent v'
  pub gone : (j : ℕ) → j < i → (v'.maps j).live ≡ true → (v'.maps j).tok ≢ tok
  pub kept : (j : ℕ) → (v.maps j).tok ≢ tok → v'.maps j ≡ v.maps j
  pub named : (j : ℕ) → (v'.maps j).tok ≡ (v.maps j).tok
  pub ahead : (j : ℕ) → i ≤ j → v'.maps j ≡ v.maps j
  pub sparser : IsSparser v.kernel v'.kernel
  pub unreachable : (j : ℕ) → j < i → Unreachable tok (v.maps j) v'.kernel
  pub counted :
      n + (v'.kernel.ledger.table (slot_of tok)).map_count
      ≡ (v.kernel.ledger.table (slot_of tok)).map_count
  pub ledger : IsRepinned v.kernel.ledger v'.kernel.ledger

revoke_step :
    (tok i n : ℕ) (v w : Vm)
    → i < max_maps
    → Revoking tok i n v w
    → Revoking tok (i + 1) (revoke_record tok i (n, w)).0 v (revoke_record tok i (n, w)).1
unfolding revoke_record
revoke_step tok i n v w h g =
    if_both (λ (r : ℕ × Vm). Revoking tok (i + 1) r.0 v r.1)
      ((w.maps i).live && ((w.maps i).tok == tok)) _ _
      (λ a.
        let live : (w.maps i).live ≡ true = ground arith in
        let same : (w.maps i).tok ≡ tok = ground arith in
        let d = drop_record-Dropped i w g.coherent h live in
        let l = w.kernel.ledger in
        let here : (slot_of tok == slot_of tok) ≡ true = ground arith in
        let now : (drop_record i w).kernel.ledger
            ≡ set_map_count (slot_of tok) ((l.table (slot_of tok)).map_count - 1) l =
          rw (← same) d.counted in
        let some_pin : 1 ≤ (l.table (slot_of tok)).map_count = rw (← same) d.pinned in
        record {
          coherent = d.coherent;
          gone = λ j q. rw d.records (ground (arith, g.gone j));
          kept = λ j ne. rw d.records (ground (arith, g.kept j ne, g.named i));
          named = λ j. rw d.records (ground (arith, g.named j));
          ahead = λ j q. rw d.records (ground (arith, g.ahead j));
          sparser =
              IsSparser-trans v.kernel w.kernel (drop_record i w).kernel g.sparser
                d.cleared.sparser;
          unreachable = λ j q l t p b. elim (Bool-cases (j == i)) [
            | inl e ↦
                let here : j ≡ i = ground arith in
                let now_i : w.maps i ≡ v.maps i = g.ahead i (omega arith) in
                rw (here, ← now_i) (d.cleared.unmapped p (rw (now_i, ← here) b))
            | inr e ↦
                sparser-unmapped _ _ w.kernel (drop_record i w).kernel d.cleared.sparser
                  (g.unreachable j (ground arith) l t p b)
          ];
          counted = rw (now, here) (omega (arith, g.counted, some_pin));
          ledger =
              IsRepinned-trans v.kernel.ledger l _ g.ledger
                (Dropped-IsRepinned i w (drop_record i w) d);
        })
      (λ a. record {
        coherent = g.coherent;
        gone = λ j q. ground (arith, g.gone j);
        kept = g.kept;
        named = g.named;
        ahead = λ j q. g.ahead j (omega arith);
        sparser = g.sparser;
        unreachable = λ j q l t p b. elim (Bool-cases (j == i)) [
          | inl e ↦
              let here : j ≡ i = ground arith in
              let now_i : w.maps i ≡ v.maps i = g.ahead i (omega arith) in
              let live : (w.maps i).live ≡ true = rw (now_i, ← here) l in
              let same : (w.maps i).tok ≡ tok = rw (now_i, ← here) t in absurd (ground arith)
          | inr e ↦ g.unreachable j (ground arith) l t p b
        ];
        counted = g.counted;
        ledger = g.ledger;
      })

-- A live token that no live record names has no mapping.
token_unpinned :
    (tok s : ℕ) (l : Ledger) (maps : ℕ → MapRec)
    → tok < 2 ^ 64
    → lookup_live tok l ≡ some s
    → ((j : ℕ) → j < max_maps → (maps j).live ≡ true → (maps j).tok ≢ tok)
    → IsPinned l maps
    → (l.table s).map_count ≡ 0
unfolding pins_of weigh
token_unpinned tok s l maps word e gone v =
    v.exact s
    ∙ sum_below-eq-zero max_maps _ (λ j q. elim (Bool-cases (holds (maps j) s)) [
      | inl h ↦
          let t = v.mapped j q (ground arith) in
          let a = lookup_live-some tok l e in
          let b = lookup_live-some (maps j).tok l t.found in
          let slot : slot_of (maps j).tok ≡ s = ground arith in
          let gen : gen_of (maps j).tok ≡ gen_of tok = sym b.3 ∙ rw slot a.3 in
          let same : (maps j).tok ≡ tok = omega (arith, slot, gen, a.1, t.word, word) in
          absurd (gone j q (ground arith) same)
      | inr h ↦ rw h refl
    ])

-- What `xas_revoke_token` does to a live token in slot `s`.
pub record Revoked (tok s : ℕ) (v : Vm) (n : ℕ) (v' : Vm) : Type 0 where
  pub coherent : IsCoherent v'
  pub gone : (j : ℕ) → j < max_maps → (v'.maps j).live ≡ true → (v'.maps j).tok ≢ tok
  pub kept : (j : ℕ) → (v.maps j).tok ≢ tok → v'.maps j ≡ v.maps j
  pub unreachable : (j : ℕ) → j < max_maps → Unreachable tok (v.maps j) v'.kernel
  pub counted : n ≡ (v.kernel.ledger.table s).map_count
  pub unmapped : (v'.kernel.ledger.table s).map_count ≡ 0
  pub ledger : IsRepinned v.kernel.ledger v'.kernel.ledger

pub revoke-Revoking :
    (tok : ℕ) (v : Vm)
    → IsCoherent v
    → Revoking tok max_maps (xas_revoke_token tok v).0 v (xas_revoke_token tok v).1
unfolding xas_revoke_token
revoke-Revoking tok v c =
    for_up_inv (λ i (r : ℕ × Vm). Revoking tok i r.0 v r.1) (revoke_record tok) max_maps 0 max_maps
      (λ i r _ h g. revoke_step tok i r.0 v r.1 h g) (0, v) refl
      (record {
        coherent = c;
        gone = λ j q. absurd (omega arith);
        kept = λ j _. refl;
        named = λ j. refl;
        ahead = λ j _. refl;
        sparser = IsSparser-refl v.kernel;
        unreachable = λ j q. absurd (omega arith);
        counted = omega arith;
        ledger = IsRepinned-refl v.kernel.ledger;
      })

-- From a coherent state and for a live 64-bit token, `xas_revoke_token` leaves a coherent state in
-- which no live record names the token and its map count is 0; for every page of a record that named
-- it, a walk of that space's page tables finds no present entry. The number it returns is the map
-- count from before; the records of other tokens are as before, and the ledger differs in map
-- counts only.
pub xas_revoke_token-Revoked :
    (tok s : ℕ) (v : Vm)
    → IsCoherent v
    → tok < 2 ^ 64
    → lookup_live tok v.kernel.ledger ≡ some s
    → Revoked tok s v (xas_revoke_token tok v).0 (xas_revoke_token tok v).1
xas_revoke_token-Revoked tok s v c word e =
    let r = revoke-Revoking tok v c in
    let slot : s ≡ slot_of tok = sym (lookup_live-some tok v.kernel.ledger e).1 in
    let still : lookup_live tok (xas_revoke_token tok v).1.kernel.ledger ≡ some s =
      repinned_lookup tok v.kernel.ledger _ r.ledger ∙ e in
    let unmapped =
      token_unpinned tok s _ (xas_revoke_token tok v).1.maps word still r.gone r.coherent.pinned in
    record {
      coherent = r.coherent;
      gone = r.gone;
      kept = r.kept;
      unreachable = r.unreachable;
      counted =
          let zero' : ((xas_revoke_token tok v).1.kernel.ledger.table (slot_of tok)).map_count ≡ 0 =
            rw (← slot) unmapped in
          rw slot (omega (arith, r.counted, zero'));
      unmapped = unmapped;
      ledger = r.ledger;
    }
