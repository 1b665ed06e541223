-- ===== src/Sys/Reclaim.antt =====
-- `xproc_reap` of sys.c: how its loop ends, and what is left.
use xasmos.Base.{
  AllOf, nil, cons, map_all, ℕ, zero, suc, ◌+◌, ◌-◌, ◌^◌, ◌≤◌, ◌<◌, ◌≡◌, ◌≢◌, refl, ◌∙◌, sym, ap,
  true, false, Option, some, List, [], ◌∷◌, arith, ◌==◌, if◌then◌else◌, if_both, Bool-cases, inl,
  inr, sum_below-le, some-injective,
}
use xasmos.Bitmap.{weigh}
use xasmos.Ledger.Table.{Ledger, lookup_live, pack_token, table_slots}
use xasmos.Ledger.Ops.{owner_tokens_from, xtok_owner_tokens}
use xasmos.Ledger.Inv.{IsLedger, lookup_live-pack}
use xasmos.Paging.Spaces.{XAspace, Vm, xas_destroy}
use xasmos.Paging.Repin.{IsRepinned, repinned_live}
use xasmos.Paging.Coherent.{IsCoherent}
use xasmos.Paging.Destroy.{destroy-IsRepinned, destroy_dead}
use xasmos.Sys.Usage.{is_of}
use xasmos.Sys.Spaces.{reap_batch, is_empty, reap_tokens, reap_space, xproc_reap, is_ok}
use xasmos.Sys.Reap.{
  Reaped, Reaping, Named, reap_batch-Reaping, Reaped-trans, reap_one_ok, reap_one,
}

-- A live token of the owner.
record Live (owner : ℕ) (l : Ledger) (tok : ℕ) : Type 0 where
  pub slot : ℕ
  pub word : tok < 2 ^ 64
  pub found : lookup_live tok l ≡ some slot
  pub own : (l.table slot).owner_id ≡ owner

Live-Named : (owner : ℕ) (l : Ledger) (tok : ℕ) → Live owner l tok → Named owner l tok
Live-Named owner l tok h = record {
  word = h.word;
  own = λ s e. let same : h.slot ≡ s = some-injective (sym h.found ∙ e) in rw (← same) h.own;
}

packed-Live :
    (owner s : ℕ) (l : Ledger)
    → IsLedger l
    → s < table_slots
    → is_of owner (l.table s) ≡ true
    → Live owner l (pack_token s (l.table s).generation)
unfolding pack_token
packed-Live owner s l v h e =
    let w = v.entry s in
    record {
      slot = s;
      word = omega (arith, w.gen_small);
      found = lookup_live-pack s l v h (ground arith);
      own = ground arith;
    }

owner_tokens-Live :
    (n i wanted owner : ℕ) (l : Ledger)
    → IsLedger l
    → i + n ≡ table_slots
    → AllOf (Live owner l) (owner_tokens_from n i wanted owner l)
unfolding owner_tokens_from
owner_tokens-Live zero i wanted owner l v e = nil
owner_tokens-Live (suc n) i wanted owner l v e =
    let hit = is_of owner (l.table i) in
    let rest =
      owner_tokens-Live n (i + 1) (if hit then wanted - 1 else wanted) owner l v (omega arith) in
    if_both (AllOf (Live owner l)) (wanted == 0) _ _ (λ _. nil)
      (λ _.
        if_both (AllOf (Live owner l)) hit _ _
          (λ a. cons (packed-Live owner i l v (omega arith) a) rest) (λ _. rest))

owner_tokens_empty :
    (n i wanted owner j : ℕ) (l : Ledger)
    → is_empty (owner_tokens_from n i wanted owner l) ≡ true
    → wanted ≢ 0
    → i ≤ j
    → j < i + n
    → is_of owner (l.table j) ≡ false
unfolding owner_tokens_from
owner_tokens_empty zero i wanted owner j l h w a b = absurd (omega arith)
owner_tokens_empty (suc n) i wanted owner j l h w a b =
    let some_wanted : (wanted == 0) ≡ false = ground arith in
    elim (Bool-cases (is_of owner (l.table i))) [
      | inl t ↦ absurd (ground (arith, h, some_wanted, t))
      | inr t ↦ elim (Bool-cases (i == j)) [
        | inl e ↦ let e' : i ≡ j = ground arith in rw (← e') t
        | inr e ↦
            owner_tokens_empty n (i + 1) wanted owner j l (rw (some_wanted, t) at h) w
              (ground arith) (omega arith)
      ]
    ]

-- A batch that starts with a live token makes progress.
batch_progress :
    (owner : ℕ) (list : List ℕ) (v : Vm)
    → IsCoherent v
    → AllOf (Live owner v.kernel.ledger) list
    → is_empty list ≡ false
    → 1 ≤ (reap_batch list v).0
unfolding reap_batch
batch_progress owner [] v c all h = absurd (cc)
batch_progress owner (tok ∷ rest) v c (cons t ts) h =
    let good : is_ok (reap_one tok v).0 ≡ true = reap_one_ok tok t.slot v c t.word t.found in
    rw good (omega arith)

-- How the loop ends: with a total, no token of the owner, and the rest of the ledger as it was.
record Emptied (owner total : ℕ) (v : Vm) (r : Option (ℕ × Vm)) : Type 0 where
  pub reclaimed : ℕ
  pub state : Vm
  pub result : r ≡ some (total + reclaimed, state)
  pub reaped : Reaping owner reclaimed v state
  pub none_left : (s : ℕ) → s < table_slots → is_of owner (state.kernel.ledger.table s) ≡ false

reap_tokens-Emptied :
    (rounds owner total : ℕ) (v : Vm)
    → IsCoherent v
    → v.kernel.ledger.live_count < rounds
    → Emptied owner total v (reap_tokens rounds owner total v)
unfolding reap_tokens xtok_owner_tokens
reap_tokens-Emptied zero owner total v c h = absurd (omega arith)
reap_tokens-Emptied (suc rounds) owner total v c h =
    let l = v.kernel.ledger in
    let list = owner_tokens_from table_slots 0 64 owner l in
    let live = owner_tokens-Live table_slots 0 64 owner l c.sound.ledger refl in
    let (n, w) = reap_batch list v in
    let batch = reap_batch-Reaping owner list v c (map_all (Live-Named owner l) live) in
    if_both (Emptied owner total v) (is_empty list) _ _
      (λ e. record {
        reclaimed = 0;
        state = v;
        result = ap (λ t. some (t, v)) (omega arith);
        reaped = record {
          coherent = c;
          ledger = record { counted = omega arith; others = λ s _. refl; survivors = λ s _. refl };
        };
        none_left =
            λ s q. owner_tokens_empty table_slots 0 64 owner s l e (omega arith) (omega arith) q;
      })
      (λ e.
        let some_progress = batch_progress owner list v c live e in
        let later =
          reap_tokens-Emptied rounds owner (total + n) w batch.coherent
            (omega (arith, batch.ledger.counted, some_progress)) in
        if_both (Emptied owner total v) (n == 0) _ _ (λ z. absurd (ground arith))
          (λ z. record {
            reclaimed = n + later.reclaimed;
            state = later.state;
            result = later.result ∙ ap (λ t. some (t, later.state)) (omega arith);
            reaped = record {
              coherent = later.reaped.coherent;
              ledger =
                  Reaped-trans owner n later.reclaimed l w.kernel.ledger later.state.kernel.ledger
                    batch.ledger later.reaped.ledger;
            };
            none_left = later.none_left;
          }))

Reaped-Repinned :
    (owner n : ℕ) (a b c : Ledger) → Reaped owner n a b → IsRepinned b c → Reaped owner n a c
Reaped-Repinned owner n a b c g r = record {
  counted = omega (arith, g.counted, r.live_count);
  others = λ s h. r.entries s ∙ g.others s h;
  survivors = λ s h. r.entries s ∙ g.survivors s (sym (repinned_live b c s r) ∙ h);
}

-- What `xproc_reap` leaves of an owner.
pub record Gone (space : XAspace) (v : Vm) (r : Option (ℕ × Option XAspace × Vm)) : Type 0 where
  pub reclaimed : ℕ
  pub state : Vm
  pub result : r ≡ some (reclaimed, some (record space { live = false }), state)
  pub ledger : Reaped space.owner_id reclaimed v.kernel.ledger state.kernel.ledger
  pub none_left :
      (s : ℕ) → s < table_slots → is_of space.owner_id (state.kernel.ledger.table s) ≡ false

few_tokens : (l : Ledger) → IsLedger l → l.live_count < 4098
unfolding weigh
few_tokens l v =
    let most = sum_below-le table_slots 1 (λ s. weigh (l.table s).live) (λ s _. ground arith) in
    omega (arith, most, v.counted)

Emptied-Gone :
    (space : XAspace) (v : Vm) (r : Option (ℕ × Vm))
    → space.live ≡ true
    → Emptied space.owner_id 0 v r
    → Gone space v (reap_space space r)
unfolding reap_space
Emptied-Gone space v r live e =
    let zeroth : 0 + e.reclaimed ≡ e.reclaimed = omega arith in
    let q = destroy-IsRepinned space e.state in
    rw e.result (record {
      reclaimed = 0 + e.reclaimed;
      state = (xas_destroy (some space) e.state).1;
      result =
          ap (λ s. some (0 + e.reclaimed, s, (xas_destroy (some space) e.state).1))
            (destroy_dead space e.state live);
      ledger =
          Reaped-Repinned space.owner_id _ v.kernel.ledger e.state.kernel.ledger _
            (rw zeroth e.reaped.ledger) q;
      none_left = λ s h. ap (is_of space.owner_id) (q.entries s) ∙ e.none_left s h;
    })

-- From a coherent state and for a live space, `xproc_reap` ends: its loop needs at most the rounds
-- that the model gives it, and the space is no longer live. Afterwards no token of the owner is
-- live, the count that it returns is the number of tokens by which the ledger has shrunk, and no
-- token of another owner has changed but in its map count.
pub xproc_reap-Gone :
    (space : XAspace) (v : Vm)
    → IsCoherent v
    → space.live ≡ true
    → Gone space v (xproc_reap (some space) v)
unfolding xproc_reap
xproc_reap-Gone space v c live =
    if_both (Gone space v) space.live _ _
      (λ _.
        Emptied-Gone space v _ live (
          reap_tokens-Emptied 4098 space.owner_id 0 v c
            (few_tokens v.kernel.ledger c.sound.ledger)))
      (λ h. absurd (cc))
