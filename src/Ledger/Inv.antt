-- ===== src/Ledger/Inv.antt =====
-- The well-formed table of token_ledger.c, its lookup and the search for a free slot.
use xasmos.Base.{
  ℕ, zero, suc, ◌+◌, ◌-◌, ◌%◌, ◌^◌, ◌≤◌, ◌<◌, ◌≡◌, ◌≢◌, refl, true, false, none, some, arith, ◌==◌,
  Bool-cases, add32, inl, inr, sum_below, sum_below-eq-zero, sym,
}
use xasmos.Bitmap.{weigh}
use xasmos.Ledger.Table.{
  Ledger, XTokenEntry, pack_token, slot_of, gen_of, lookup_live, claim_from, claim_slot, xtok_init,
  table_slots, kind_ram,
}

pub record IsEntry (e : XTokenEntry) : Type 0 where
  pub gen_pos : 1 ≤ e.generation
  pub gen_small : e.generation < 2 ^ 32
  pub pins : e.map_count < 2 ^ 16
  pub unpinned : e.live ≡ false → e.map_count ≡ 0
  pub ram : e.live ≡ true → e.kind ≡ kind_ram
  pub frames : e.live ≡ true → (e.phys ≢ 0) × (e.n_frames ≢ 0)

pub record IsLedger (l : Ledger) : Type 0 where
  pub hint : l.next_hint < table_slots
  pub entry : (s : ℕ) → IsEntry (l.table s)
  pub counted : l.live_count ≡ sum_below table_slots (λ s. weigh (l.table s).live)

pub xtok_init-IsLedger : IsLedger xtok_init
unfolding xtok_init weigh
xtok_init-IsLedger = record {
  hint = omega arith;
  entry = λ s. record {
    gen_pos = omega arith;
    gen_small = omega arith;
    pins = omega arith;
    unpinned = λ _. refl;
    ram = λ h. cc;
    frames = λ h. cc;
  };
  counted = sym (sum_below-eq-zero table_slots _ (λ i _. refl));
}

-- A packed token is not the invalid one, and unpacks to its slot and generation.
pub unpack-pack :
    (s g : ℕ)
    → s < table_slots
    → 1 ≤ g
    → g < 2 ^ 32
    → (pack_token s g ≢ 0) × (slot_of (pack_token s g) ≡ s) × (gen_of (pack_token s g) ≡ g)
unfolding pack_token
unpack-pack s g hs lo hi = omega arith

-- A live token names a slot of the table, live and of the token's generation.
pub lookup_live-some :
    (tok : ℕ) (l : Ledger) {s : ℕ}
    → lookup_live tok l ≡ some s
    → (s < table_slots)
      × (slot_of tok ≡ s)
      × ((l.table s).live ≡ true)
      × ((l.table s).generation ≡ gen_of tok)
unfolding lookup_live
lookup_live-some tok l h = ground arith

-- The other way round.
pub lookup_live-pack :
    (s : ℕ) (l : Ledger)
    → IsLedger l
    → s < table_slots
    → (l.table s).live ≡ true
    → lookup_live (pack_token s (l.table s).generation) l ≡ some s
unfolding lookup_live
lookup_live-pack s l v hs live =
    let g = (l.table s).generation in
    let u = unpack-pack s g hs (v.entry s).gen_pos (v.entry s).gen_small in
    rw (u.1, u.2, live) (ground (arith, u.0))

-- A slot that the scan claims is a free one of the table.
claim_from-free :
    (rounds i s : ℕ) (l : Ledger)
    → claim_from rounds i l ≡ some s
    → (s < table_slots) × ((l.table s).live ≡ false)
unfolding claim_from
claim_from-free zero i s l h = absurd (cc)
claim_from-free (suc k) i s l h = ground (arith, claim_from-free k (i + 1) s l)

pub claim_slot-free :
    (l : Ledger) {s : ℕ} → claim_slot l ≡ some s → (s < table_slots) × ((l.table s).live ≡ false)
unfolding claim_slot
claim_slot-free l {s} h = claim_from-free table_slots 0 s l h

claim_from-full :
    (rounds i j : ℕ) (l : Ledger)
    → claim_from rounds i l ≡ none
    → i ≤ j
    → j < i + rounds
    → (l.table (add32 l.next_hint j % table_slots)).live ≡ true
unfolding claim_from
claim_from-full zero i j l h a b = absurd (omega arith)
claim_from-full (suc k) i j l h a b = elim (Bool-cases (i == j)) [
  | inl e ↦ let e' : i ≡ j = ground arith in rw (← e') (ground arith)
  | inr e ↦ claim_from-full k (i + 1) j l (ground arith) (ground arith) (omega arith)
]

-- On a well-formed ledger the scan for a free slot fails only if every slot of the table is live.
pub claim_slot-full :
    (l : Ledger) (s : ℕ)
    → IsLedger l
    → claim_slot l ≡ none
    → s < table_slots
    → (l.table s).live ≡ true
unfolding claim_slot
claim_slot-full l s v h hs =
    let j = (s + table_slots - l.next_hint) % table_slots in
    let e : add32 l.next_hint j % table_slots ≡ s = omega (arith, v.hint) in
    rw e at (claim_from-full table_slots 0 j l h (omega arith) (omega arith))
