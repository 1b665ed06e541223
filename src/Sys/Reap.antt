-- ===== src/Sys/Reap.antt =====
-- `xproc_reap` of sys.c: the loop that unmaps and reclaims the tokens of an owner.
use xasmos.Base.{
  AllOf, cons, map_all, ℕ, ◌+◌, ◌^◌, ◌<◌, ◌≡◌, ◌≢◌, refl, ◌∙◌, sym, ap, true, false, some, List, [],
  ◌∷◌, arith, ◌==◌, if◌then◌else◌, Bool-cases, inl, inr, le-sum_below,
}
use xasmos.Bitmap.{weigh}
use xasmos.Ledger.Table.{Ledger, XTokenEntry, lookup_live, gen_of, table_slots, wipe_slot}
use xasmos.Ledger.Ops.{Kernel, Release, ok, xtok_reclaim}
use xasmos.Ledger.Inv.{IsLedger, lookup_live-some}
use xasmos.Ledger.Release.{release_cases, reclaim_succeeds}
use xasmos.Paging.Spaces.{Vm, xas_revoke_token}
use xasmos.Paging.Repin.{IsRepinned, bare, repinned_owner, repinned_lookup}
use xasmos.Paging.Coherent.{IsCoherent}
use xasmos.Paging.Revoke.{revoke-Revoking, xas_revoke_token-Revoked}
use xasmos.Sys.Usage.{is_of}
use xasmos.Sys.Spaces.{is_ok, reap_batch}
use xasmos.Sys.Coherent.{with_kernel, release_impl-IsCoherent}

-- What the reaping of `n` tokens of an owner does to the ledger.
pub record Reaped (owner n : ℕ) (l l' : Ledger) : Type 0 where
  pub counted : n + l'.live_count ≡ l.live_count
  pub others : (s : ℕ) → is_of owner (l.table s) ≡ false → bare (l'.table s) ≡ bare (l.table s)
  pub survivors : (s : ℕ) → (l'.table s).live ≡ true → bare (l'.table s) ≡ bare (l.table s)

bare_of : (owner : ℕ) (e f : XTokenEntry) → bare e ≡ bare f → is_of owner e ≡ is_of owner f
bare_of owner e f h = ap (is_of owner) h

pub Reaped-trans :
    (owner m n : ℕ) (a b c : Ledger)
    → Reaped owner m a b
    → Reaped owner n b c
    → Reaped owner (m + n) a c
Reaped-trans owner m n a b c f g = record {
  counted = omega (arith, f.counted, g.counted);
  others =
      λ s h. g.others s (bare_of owner (b.table s) (a.table s) (f.others s h) ∙ h) ∙ f.others s h;
  survivors = λ s h.
      let e = g.survivors s h in e ∙ f.survivors s (sym (ap (λ (x : XTokenEntry). x.live) e) ∙ h);
}

Repinned-Reaped :
    (owner n : ℕ) (a b c : Ledger) → IsRepinned a b → Reaped owner n b c → Reaped owner n a c
Repinned-Reaped owner n a b c r g = record {
  counted = omega (arith, g.counted, r.live_count);
  others =
      λ s h. g.others s (bare_of owner (b.table s) (a.table s) (r.entries s) ∙ h) ∙ r.entries s;
  survivors = λ s h. g.survivors s h ∙ r.entries s;
}

-- The wiping of a live slot of the owner.
wipe-Reaped :
    (owner s : ℕ) (l : Ledger)
    → IsLedger l
    → s < table_slots
    → (l.table s).live ≡ true
    → (l.table s).owner_id ≡ owner
    → Reaped owner 1 l (wipe_slot s l)
unfolding wipe_slot weigh
wipe-Reaped owner s l v h live e =
    let most = le-sum_below table_slots s (λ i. weigh (l.table i).live) h in
    record {
      counted = ground (arith, most, v.counted, live);
      others = λ t q. elim (Bool-cases (t == s)) [
        | inl a ↦ absurd (ground (arith, q, live, e))
        | inr a ↦ rw a refl
      ];
      survivors = λ t q. elim (Bool-cases (t == s)) [
        | inl a ↦ absurd (ground (arith, q))
        | inr a ↦ rw a refl
      ];
    }

not_ok : (r : Release) → r ≢ ok → is_ok r ≡ false
not_ok Release.ok ne = absurd (ne refl)
not_ok Release.estale ne = refl
not_ok Release.ebusy ne = refl
not_ok Release.erights ne = refl

-- If a word names a live token at all, then one of the owner.
abbrev pub Owned : ℕ → Ledger → ℕ → Type 0
Owned owner l tok = (s : ℕ) → lookup_live tok l ≡ some s → (l.table s).owner_id ≡ owner

reclaim-Reaped :
    (owner tok : ℕ) (k : Kernel)
    → IsLedger k.ledger
    → Owned owner k.ledger tok
    → let (r, k') = xtok_reclaim tok k in Reaped owner (if is_ok r then 1 else 0) k.ledger k'.ledger
unfolding xtok_reclaim
reclaim-Reaped owner tok k v own =
    release_cases
      (λ (r : Release × Kernel). Reaped owner (if is_ok r.0 then 1 else 0) k.ledger r.1.ledger) tok
      false false 0 k
      (λ r ne.
        let bad = not_ok r ne in
        rw bad (record { counted = omega arith; others = λ s _. refl; survivors = λ s _. refl }))
      (λ s e _ _ _.
        let l = lookup_live-some tok k.ledger e in wipe-Reaped owner s k.ledger v l.0 l.2 (own s e))

-- What the loop has made of the state.
pub record Reaping (owner n : ℕ) (v v' : Vm) : Type 0 where
  pub coherent : IsCoherent v'
  pub ledger : Reaped owner n v.kernel.ledger v'.kernel.ledger

-- A word that the caller got as a token of the owner.
pub record Named (owner : ℕ) (l : Ledger) (tok : ℕ) : Type 0 where
  pub word : tok < 2 ^ 64
  pub own : Owned owner l tok

Owned-repinned :
    (owner tok : ℕ) (l l' : Ledger) → IsRepinned l l' → Owned owner l tok → Owned owner l' tok
Owned-repinned owner tok l l' r own s e =
    repinned_owner l l' s r ∙ own s (sym (repinned_lookup tok l l' r) ∙ e)

-- The body of the loop over a batch.
abbrev pub reap_one : ℕ → Vm → Release × Kernel
reap_one tok v = xtok_reclaim tok (xas_revoke_token tok v).1.kernel

abbrev pub after_one : ℕ → Vm → Vm
after_one tok v = with_kernel (xas_revoke_token tok v).1 (reap_one tok v).1

reap_one-Reaping :
    (owner tok : ℕ) (v : Vm)
    → IsCoherent v
    → Named owner v.kernel.ledger tok
    → Reaping owner (if is_ok (reap_one tok v).0 then 1 else 0) v (after_one tok v)
reap_one-Reaping owner tok v c n =
    let r = revoke-Revoking tok v c in
    let w = (xas_revoke_token tok v).1 in
    let l = w.kernel.ledger in
    record {
      coherent = unfold xtok_reclaim in release_impl-IsCoherent tok false false 0 w r.coherent;
      ledger = Repinned-Reaped owner _ v.kernel.ledger l (after_one tok v).kernel.ledger r.ledger (
          reclaim-Reaped owner tok w.kernel r.coherent.sound.ledger
            (Owned-repinned owner tok v.kernel.ledger l r.ledger n.own));
    }

-- A live token is reclaimed at once.
pub reap_one_ok :
    (tok s : ℕ) (v : Vm)
    → IsCoherent v
    → tok < 2 ^ 64
    → lookup_live tok v.kernel.ledger ≡ some s
    → is_ok (reap_one tok v).0 ≡ true
reap_one_ok tok s v c word e =
    let r = xas_revoke_token-Revoked tok s v c word e in
    let w = (xas_revoke_token tok v).1 in
    let live = repinned_lookup tok v.kernel.ledger w.kernel.ledger r.ledger ∙ e in
    ap is_ok ((reclaim_succeeds tok w.kernel).1 (s, live, r.unmapped))

-- What is left of the tokens still belongs to the owner.
Named-Reaped :
    (owner n t : ℕ) (l l' : Ledger) → Reaped owner n l l' → Named owner l t → Named owner l' t
unfolding lookup_live
Named-Reaped owner n t l l' r h = record {
  word = h.word;
  own = λ s e.
      let now = lookup_live-some t l' e in
      let same = r.survivors s now.2 in
      let live : (l.table s).live ≡ true = sym (ap (λ (x : XTokenEntry). x.live) same) ∙ now.2 in
      let gen : (l.table s).generation ≡ gen_of t =
        sym (ap (λ (x : XTokenEntry). x.generation) same) ∙ now.3 in
      let valid : (t == 0) ≡ false = ground arith in
      ap (λ (x : XTokenEntry). x.owner_id) same
      ∙ h.own s (ground (arith, now.0, now.1, live, gen, valid));
}

pub reap_batch-Reaping :
    (owner : ℕ) (list : List ℕ) (v : Vm)
    → IsCoherent v
    → AllOf (Named owner v.kernel.ledger) list
    → Reaping owner (reap_batch list v).0 v (reap_batch list v).1
unfolding reap_batch
reap_batch-Reaping owner [] v c all = record {
  coherent = c;
  ledger = record { counted = omega arith; others = λ s _. refl; survivors = λ s _. refl };
}
reap_batch-Reaping owner (tok ∷ rest) v c (cons h hs) =
    let w = after_one tok v in
    let first = reap_one-Reaping owner tok v c h in
    let names =
      map_all (λ t. Named-Reaped owner _ t v.kernel.ledger w.kernel.ledger first.ledger) hs in
    let later = reap_batch-Reaping owner rest w first.coherent names in
    record {
      coherent = later.coherent;
      ledger =
          let sum =
            Reaped-trans owner _ _ v.kernel.ledger w.kernel.ledger _ first.ledger later.ledger in
          let count : (if is_ok (reap_one tok v).0
                then (reap_batch rest w).0 + 1
                else (reap_batch rest w).0)
              ≡ (if is_ok (reap_one tok v).0 then 1 else 0) + (reap_batch rest w).0 =
            ground arith in
          rw count sum;
    }
