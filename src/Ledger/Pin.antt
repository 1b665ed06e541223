-- ===== src/Ledger/Pin.antt =====
-- The map gate: `xtok_map_acquire` and `xtok_map_release`.
use xasmos.Base.{
  ℕ, ◌+◌, ◌-◌, ◌%◌, ◌^◌, ◌<◌, ◌≡◌, ◌≢◌, refl, Bool, true, not, Option, none, some, arith, ◌==◌,
  if_both, ◌∙◌, bit_and, sum_below-cong, ap,
}
use xasmos.Bitmap.{weigh}
use xasmos.Physical.State.{PhysBitmap}
use xasmos.Ledger.Table.{Ledger, lookup_live, table_slots, kind_ram}
use xasmos.Ledger.Ops.{
  Kernel, ok, Acquire, pinned, set_map_count, acquire_slot, acquire_found, xtok_map_acquire,
  xtok_map_release, xtok_map_count, release_impl, has_rights,
}
use xasmos.Ledger.Inv.{IsLedger, lookup_live-some}
use xasmos.Ledger.Sound.{IsSound}
use xasmos.Ledger.Release.{release_impl-Released}

-- A change of the map count is seen by nothing but the map count.
pub lookup-set_map_count :
    (tok s n : ℕ) (l : Ledger) → lookup_live tok (set_map_count s n l) ≡ lookup_live tok l
unfolding lookup_live
lookup-set_map_count tok s n l = ground arith

pub set_map_count-IsSound :
    (s n : ℕ) (l : Ledger) (p : PhysBitmap)
    → n < 2 ^ 16
    → (l.table s).live ≡ true
    → IsSound l p
    → IsSound (set_map_count s n l) p
set_map_count-IsSound s n l p small live v = record {
  ledger = record {
    hint = v.ledger.hint;
    entry = λ i.
        let w = v.ledger.entry i in
        record {
          gen_pos = ground (arith, w.gen_pos);
          gen_small = ground (arith, w.gen_small);
          pins = ground (arith, w.pins);
          unpinned = λ h. ground (arith, w.unpinned);
          ram = λ h. ground (arith, w.ram);
          frames = λ h. ground (arith, w.frames);
        };
    counted = v.ledger.counted ∙ sum_below-cong table_slots _ _ (λ i _. ap weigh (ground arith));
  };
  physical = v.physical;
  reserved = v.reserved;
  backed = record {
    aligned = λ i h. ground (arith, v.backed.aligned i);
    inside = λ i h. ground (arith, v.backed.inside i);
    used = λ i g h. ground (arith, v.backed.used i g);
    apart = λ i j g h k. ground (arith, v.backed.apart i j g);
  };
}

-- What a successful pin found and did.
pub record Pinned (tok caller needed phys n : ℕ) (l l' : Ledger) : Type 0 where
  pub slot : ℕ
  pub was_live : lookup_live tok l ≡ some slot
  pub still_live : lookup_live tok l' ≡ some slot
  pub kind : (l.table slot).kind ≡ kind_ram
  pub owner : (l.table slot).owner_id ≡ caller
  pub rights : bit_and (l.table slot).rights needed ≡ needed
  pub address : phys ≡ (l.table slot).phys
  pub size : n ≡ (l.table slot).n_frames
  pub counted : (l'.table slot).map_count ≡ (l.table slot).map_count + 1
  pub ledger : l' ≡ set_map_count slot ((l.table slot).map_count + 1) l
  pub others : (t : ℕ) → t ≢ slot → l'.table t ≡ l.table t

-- The two ways in which a pin of a live token ends.
acquire_cases {ℓ} :
    (P : Acquire × Ledger → Type ℓ) (s caller needed : ℕ) (l : Ledger)
    → ((r : Acquire) → ((phys n : ℕ) → r ≢ pinned phys n) → P (r, l))
    → ((l.table s).kind ≡ kind_ram
        → (l.table s).owner_id ≡ caller
        → bit_and (l.table s).rights needed ≡ needed
        → (l.table s).map_count ≢ 0xFFFF
        → P (
          pinned (l.table s).phys (l.table s).n_frames,
          set_map_count s (((l.table s).map_count + 1) % 2 ^ 16) l,
        ))
    → P (acquire_slot s caller needed l)
unfolding acquire_slot
acquire_cases P s caller needed l refused done =
    if_both P (not ((l.table s).kind == kind_ram)) _ _ (λ _. refused Acquire.ekind (λ p n h. cc))
      (λ a.
        if_both P (not ((l.table s).owner_id == caller)) _ _
          (λ _. refused Acquire.eowner (λ p n h. cc))
          (λ b.
            if_both P (not (has_rights (l.table s) needed)) _ _
              (λ _. refused Acquire.erights (λ p n h. cc))
              (λ c.
                if_both P ((l.table s).map_count == 0xFFFF) _ _
                  (λ _. refused Acquire.ebusy (λ p n h. cc))
                  (λ d. done (ground arith) (ground arith) (ground arith) (ground arith)))))

-- A pin, successful or not, keeps the invariant.
pub map_acquire-IsSound :
    (tok caller needed : ℕ) (l : Ledger) (p : PhysBitmap)
    → IsSound l p
    → IsSound (xtok_map_acquire tok caller needed l).1 p
unfolding xtok_map_acquire
map_acquire-IsSound tok caller needed l p v = go (lookup_live tok l) refl
  where
    go : (o : Option ℕ) → lookup_live tok l ≡ o → IsSound (acquire_found o caller needed l).1 p
    go none e = unfold acquire_found in v
    go (some s) e =
        unfold acquire_found in
        acquire_cases (λ (r : Acquire × Ledger). IsSound r.1 p) s caller needed l (λ _ _. v)
          (λ _ _ _ _. set_map_count-IsSound s _ l p (omega arith) (lookup_live-some tok l e).2 v)

small_count : (c : ℕ) → c < 2 ^ 16 → c ≢ 0xFFFF → (c + 1) % 2 ^ 16 ≡ c + 1
small_count c small below = omega arith

acquire_found-Pinned :
    (o : Option ℕ) (tok caller needed : ℕ) (l : Ledger) {phys n : ℕ}
    → lookup_live tok l ≡ o
    → IsLedger l
    → (acquire_found o caller needed l).0 ≡ pinned phys n
    → Pinned tok caller needed phys n l (acquire_found o caller needed l).1
unfolding acquire_found
acquire_found-Pinned none tok caller needed l e v = λ h. absurd (cc)
acquire_found-Pinned (some s) tok caller needed l {phys} {n} e v =
    acquire_cases (λ r. r.0 ≡ pinned phys n → Pinned tok caller needed phys n l r.1) s caller needed
      l (λ r ne h. absurd (ne phys n h))
      (λ k o r m h. record {
        slot = s;
        was_live = e;
        still_live = lookup-set_map_count tok s _ l ∙ e;
        kind = k;
        owner = o;
        rights = r;
        address = cc;
        size = cc;
        counted = ground (arith, (v.entry s).pins);
        ledger =
            ap (λ n. set_map_count s n l) (small_count (l.table s).map_count (v.entry s).pins m);
        others = λ t ne. ground arith;
      })

-- On a well-formed ledger a pin succeeds only on a live RAM token of the caller that carries every
-- right asked for. It returns the token's frames, adds one mapping, and changes no other entry.
pub map_acquire-Pinned :
    (tok caller needed : ℕ) (l : Ledger) {phys n : ℕ}
    → IsLedger l
    → (xtok_map_acquire tok caller needed l).0 ≡ pinned phys n
    → Pinned tok caller needed phys n l (xtok_map_acquire tok caller needed l).1
unfolding xtok_map_acquire
map_acquire-Pinned tok caller needed l v h =
    acquire_found-Pinned (lookup_live tok l) tok caller needed l refl v h

-- A pin that fails changes nothing.
pub map_acquire_refused :
    (tok caller needed : ℕ) (l : Ledger)
    → ((phys n : ℕ) → (xtok_map_acquire tok caller needed l).0 ≢ pinned phys n)
    → (xtok_map_acquire tok caller needed l).1 ≡ l
unfolding xtok_map_acquire
map_acquire_refused tok caller needed l = go (lookup_live tok l)
  where
    go :
        (o : Option ℕ)
        → ((phys n : ℕ) → (acquire_found o caller needed l).0 ≢ pinned phys n)
        → (acquire_found o caller needed l).1 ≡ l
    go none = unfold acquire_found in λ _. refl
    go (some s) =
        unfold acquire_found in
        acquire_cases (λ (r : Acquire × Ledger). ((phys n : ℕ) → r.0 ≢ pinned phys n) → r.1 ≡ l) s
          caller needed l (λ _ _ _. refl) (λ _ _ _ _ ne. absurd (ne _ _ refl))

-- While `IsSound` holds, a token that was just pinned cannot be released or reclaimed, whoever
-- asks.
pub pinned_not_released :
    (tok caller needed : ℕ) (check_right check_owner : Bool) (owner : ℕ) (k : Kernel) {phys n : ℕ}
    → IsSound k.ledger k.phys
    → (xtok_map_acquire tok caller needed k.ledger).0 ≡ pinned phys n
    → let k' = record k { ledger = (xtok_map_acquire tok caller needed k.ledger).1 } in
      (release_impl tok check_right check_owner owner k').0 ≢ ok
pinned_not_released tok caller needed cr co owner k v h e =
    let l' = (xtok_map_acquire tok caller needed k.ledger).1 in
    let k' : Kernel = record k { ledger = l' } in
    let pin = map_acquire-Pinned tok caller needed k.ledger v.ledger h in
    let sound = map_acquire-IsSound tok caller needed k.ledger k.phys v in
    let (s, done, _, _) = release_impl-Released tok cr co owner k' sound e in
    ground (arith, done.was_live, done.was_unmapped, pin.still_live, pin.counted)

release_pinned :
    (tok t s : ℕ) (l l1 : Ledger)
    → lookup_live tok l ≡ some s
    → lookup_live tok l1 ≡ some s
    → (l1.table s).map_count ≡ (l.table s).map_count + 1
    → lookup_live t l1 ≡ lookup_live t l
    → (xtok_map_count tok (xtok_map_release tok l1) ≡ xtok_map_count tok l)
      × (lookup_live t (xtok_map_release tok l1) ≡ lookup_live t l)
unfolding xtok_map_count xtok_map_release
release_pinned tok t s l l1 was now count other = ground (
  arith,
  lookup-set_map_count tok s ((l1.table s).map_count - 1) l1,
  lookup-set_map_count t s ((l1.table s).map_count - 1) l1,
)

pub acquire_lookup :
    (tok caller needed t : ℕ) (l : Ledger)
    → lookup_live t (xtok_map_acquire tok caller needed l).1 ≡ lookup_live t l
unfolding xtok_map_acquire
acquire_lookup tok caller needed t l = go (lookup_live tok l)
  where
    go : (o : Option ℕ) → lookup_live t (acquire_found o caller needed l).1 ≡ lookup_live t l
    go none = unfold acquire_found in refl
    go (some s) =
        unfold acquire_found in
        acquire_cases (λ (r : Acquire × Ledger). lookup_live t r.1 ≡ lookup_live t l) s caller
          needed l (λ _ _. refl) (λ _ _ _ _. lookup-set_map_count t s _ l)

-- On a well-formed ledger `xtok_map_release` takes back one mapping: after a successful pin and a
-- release of it the map count is what it was, and so is every token's lookup.
pub map_release-acquire :
    (tok caller needed t : ℕ) (l : Ledger) {phys n : ℕ}
    → IsLedger l
    → (xtok_map_acquire tok caller needed l).0 ≡ pinned phys n
    → let l' = xtok_map_release tok (xtok_map_acquire tok caller needed l).1 in
      (xtok_map_count tok l' ≡ xtok_map_count tok l) × (lookup_live t l' ≡ lookup_live t l)
map_release-acquire tok caller needed t l v h =
    let l1 = (xtok_map_acquire tok caller needed l).1 in
    let pin = map_acquire-Pinned tok caller needed l v h in
    release_pinned tok t pin.slot l l1 pin.was_live pin.still_live pin.counted
      (acquire_lookup tok caller needed t l)
