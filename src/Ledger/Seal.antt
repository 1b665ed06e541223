-- ===== src/Ledger/Seal.antt =====
-- Sealing and wiping a slot of the table of token_ledger.c.
use xasmos.Base.{
  ℕ, zero, suc, ◌+◌, ◌≤◌, ◌<◌, ◌≡◌, ◌≢◌, refl, Bool, true, false, none, some, arith, ◌==◌, if_both,
  update, sum_below, sum_below-change,
}
use xasmos.Bitmap.{weigh}
use xasmos.Ledger.Table.{
  Ledger, XTokenEntry, lookup_live, sealed_entry, seal_slot, wipe_slot, released_entry, table_slots,
  slot_of,
}
use xasmos.Ledger.Inv.{IsEntry, IsLedger, lookup_live-some}

-- A table in which every entry below `n` is live or not counts at most `n`.
sum_weigh-le : (n : ℕ) (f : ℕ → Bool) → sum_below n (λ s. weigh (f s)) ≤ n
unfolding sum_below weigh
sum_weigh-le zero f = omega arith
sum_weigh-le (suc n) f = ground (arith, sum_weigh-le n f)

sealed-IsEntry :
    (e : XTokenEntry) (owner phys n rights : ℕ)
    → IsEntry e
    → phys ≢ 0
    → n ≢ 0
    → IsEntry (sealed_entry e owner phys n rights)
sealed-IsEntry e owner phys n rights v hp hn = record {
  gen_pos = v.gen_pos;
  gen_small = v.gen_small;
  pins = v.pins;
  unpinned = λ h. cc;
  ram = λ _. refl;
  frames = λ _. (hp, hn);
}

released-IsEntry : (e : XTokenEntry) → IsEntry e → IsEntry (released_entry e)
released-IsEntry e v = record {
  gen_pos = ground arith;
  gen_small = ground arith;
  pins = omega arith;
  unpinned = λ _. refl;
  ram = λ h. cc;
  frames = λ h. cc;
}

-- The change of one entry, as the entries see it.
update-IsEntry :
    (t : ℕ → XTokenEntry) (s : ℕ) (e : XTokenEntry)
    → ((i : ℕ) → IsEntry (t i))
    → IsEntry e
    → (i : ℕ) → IsEntry (update t s e i)
update-IsEntry t s e v h i = if_both IsEntry (i == s) e (t i) (λ _. h) (λ _. v i)

live_sum-update :
    (t : ℕ → XTokenEntry) (s : ℕ) (e : XTokenEntry)
    → s < table_slots
    → sum_below table_slots (λ i. weigh (update t s e i).live) + weigh (t s).live
      ≡ sum_below table_slots (λ i. weigh (t i).live) + weigh e.live
live_sum-update t s e h =
    let self : weigh (update t s e s).live ≡ weigh e.live = ground arith in
    let rest =
      sum_below-change table_slots s (λ i. weigh (t i).live) (λ i. weigh (update t s e i).live) h
        (λ j q. rw q refl) in
    omega (arith, rest, self)

pub seal_slot-IsLedger :
    (s owner phys n rights : ℕ) (l : Ledger)
    → IsLedger l
    → s < table_slots
    → (l.table s).live ≡ false
    → phys ≢ 0
    → n ≢ 0
    → IsLedger (seal_slot s owner phys n rights l).1
unfolding seal_slot weigh
seal_slot-IsLedger s owner phys n rights l v hs dead hp hn =
    let e = sealed_entry (l.table s) owner phys n rights in
    let step = live_sum-update l.table s e hs in
    let most = sum_weigh-le table_slots (λ i. (update l.table s e i).live) in
    record {
      hint = omega arith;
      entry =
          update-IsEntry l.table s e v.entry
            (sealed-IsEntry _ owner phys n rights (v.entry s) hp hn);
      counted = ground (arith, step, most, v.counted);
    }

pub wipe_slot-IsLedger :
    (s : ℕ) (l : Ledger)
    → IsLedger l
    → s < table_slots
    → (l.table s).live ≡ true
    → IsLedger (wipe_slot s l)
unfolding wipe_slot weigh
wipe_slot-IsLedger s l v hs live =
    let e = released_entry (l.table s) in
    let step = live_sum-update l.table s e hs in
    record {
      hint = v.hint;
      entry = update-IsEntry l.table s e v.entry (released-IsEntry (l.table s) (v.entry s));
      counted = ground (arith, step, v.counted);
    }

-- A wiped slot no longer answers to its token.
pub lookup-wipe :
    (tok s : ℕ) (l : Ledger) → lookup_live tok l ≡ some s → lookup_live tok (wipe_slot s l) ≡ none
unfolding wipe_slot lookup_live
lookup-wipe tok s l h = ground (arith, lookup_live-some tok l h)

-- Wiping a slot leaves the tokens of the other slots as they were.
pub lookup-wipe_other :
    (tok s : ℕ) (l : Ledger) → slot_of tok ≢ s → lookup_live tok (wipe_slot s l) ≡ lookup_live tok l
unfolding wipe_slot lookup_live
lookup-wipe_other tok s l h = ground arith

-- Nor does the slot answer to the old token when it has been sealed again.
pub lookup-seal_wipe :
    (tok s owner phys n rights : ℕ) (l : Ledger)
    → IsLedger l
    → lookup_live tok l ≡ some s
    → lookup_live tok (seal_slot s owner phys n rights (wipe_slot s l)).1 ≡ none
unfolding wipe_slot seal_slot lookup_live
lookup-seal_wipe tok s owner phys n rights l v h =
    ground (arith, lookup_live-some tok l h, (v.entry s).gen_pos, (v.entry s).gen_small)
