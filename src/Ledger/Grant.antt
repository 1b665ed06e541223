-- ===== src/Ledger/Grant.antt =====
-- What a caller gets from an allocation, and what a failed one leaves behind.
use xasmos.Base.{
  ℕ, zero, suc, ◌+◌, ◌*◌, ◌/◌, ◌%◌, ◌^◌, ◌<◌, ◌≡◌, ◌≢◌, refl, true, false, none, some, arith, ◌==◌,
  if◌then◌else◌, if_both, update, sum_below, sum_below-change, for_up, ◌⊎◌, inl, inr, Bool-cases,
  ◌≤◌,
}
use xasmos.Physical.State.{PhysBitmap, bit_test, frame_size, frames_per_huge, bitmap_max_frames}
use xasmos.Physical.Range.{in_range}
use xasmos.Physical.Laws.{Allocated}
use xasmos.Physical.Contract.{free-Allocated}
use xasmos.Ledger.Table.{
  Ledger, XTokenEntry, seal_slot, pack_token, lookup_live, slot_of, table_slots, invalid,
  sealed_entry,
}
use xasmos.Ledger.Ops.{Kernel, zero_frames, seal_frames, xtok_alloc_ram, xtok_alloc_ram_huge}
use xasmos.Ledger.Inv.{IsLedger, unpack-pack}
use xasmos.Ledger.Sound.{IsSound}
use xasmos.Ledger.Alloc.{Supply, seal_frames_cases, frames-Supply, huge-Supply}

-- The frames that live tokens hold.
abbrev pub weight : XTokenEntry → ℕ
weight e = if e.live then e.n_frames else 0

unfoldable pub frames_held : Ledger → ℕ
frames_held l = sum_below table_slots (λ s. weight (l.table s))

pub zero_loop :
    (n i w : ℕ) (ram : ℕ → ℕ)
    → for_up n i (λ i r. update r i 0) ram w ≡ (if in_range i n w then 0 else ram w)
unfolding for_up
zero_loop zero i w ram = ground arith
zero_loop (suc n) i w ram = ground (arith, zero_loop n (i + 1) w (update ram i 0))

zero_frames_lem :
    (addr n w : ℕ) (ram : ℕ → ℕ)
    → n < 2 ^ 40
    → zero_frames addr n ram w ≡ (if in_range (addr / 8) (n * 512) w then 0 else ram w)
unfolding zero_frames
zero_frames_lem addr n w ram h =
    let rounds : n * (frame_size / 8) % 2 ^ 64 ≡ n * 512 = omega arith in
    rw rounds (zero_loop (n * 512) (addr / 8) w ram)

-- The token that an allocation has sealed.
pub record Granted (owner n rights : ℕ) (k : Kernel) (tok : ℕ) (k' : Kernel) : Type 0 where
  pub slot : ℕ
  pub inside : slot < table_slots
  pub word : tok < 2 ^ 64
  pub dead : (k.ledger.table slot).live ≡ false
  pub now_live : (k'.ledger.table slot).live ≡ true
  pub rest : (s : ℕ) → (s == slot) ≡ false → k'.ledger.table s ≡ k.ledger.table s
  pub found : lookup_live tok k'.ledger ≡ some slot
  pub owned : (k'.ledger.table slot).owner_id ≡ owner
  pub allowed : (k'.ledger.table slot).rights ≡ rights
  pub size : (k'.ledger.table slot).n_frames ≡ n
  pub unmapped : (k'.ledger.table slot).map_count ≡ 0
  pub unknown : lookup_live tok k.ledger ≡ none
  pub others : (t : ℕ) → slot_of t ≢ slot → lookup_live t k'.ledger ≡ lookup_live t k.ledger
  pub generations : (s : ℕ) → (k'.ledger.table s).generation ≡ (k.ledger.table s).generation
  pub memory :
      (w : ℕ)
      → k'.ram w ≡ (if in_range ((k'.ledger.table slot).phys / 8) (n * 512) w then 0 else k.ram w)
  pub conserved :
      k'.phys.free_frames + frames_held k'.ledger ≡ k.phys.free_frames + frames_held k.ledger

-- What a failed allocation leaves: the ledger as it was, and the bitmap with the same bits and
-- the same count of free frames. Memory may have become zero in free frames.
pub record Refused (k : Kernel) (k' : Kernel) : Type 0 where
  pub ledger : k'.ledger ≡ k.ledger
  pub bits : (g : ℕ) → bit_test k'.phys g ≡ bit_test k.phys g
  pub free : k'.phys.free_frames ≡ k.phys.free_frames
  pub memory :
      (w : ℕ) → (k'.ram w ≡ k.ram w) ⊎ ((k'.ram w ≡ 0) × (bit_test k.phys (w / 512) ≡ true))

pub frames_held-update :
    (t : ℕ → XTokenEntry) (s : ℕ) (e : XTokenEntry)
    → s < table_slots
    → sum_below table_slots (λ i. weight (update t s e i)) + weight (t s)
      ≡ sum_below table_slots (λ i. weight (t i)) + weight e
frames_held-update t s e h =
    let self : weight (update t s e s) ≡ weight e = ground arith in
    let rest =
      sum_below-change table_slots s (λ i. weight (t i)) (λ i. weight (update t s e i)) h
        (λ j q. rw q refl) in
    omega (arith, rest, self)

-- The token of a slot about to be sealed is not live, and sealing makes it live.
lookup_sealed :
    (s owner addr n rights : ℕ) (l : Ledger)
    → IsLedger l
    → s < table_slots
    → (l.table s).live ≡ false
    → let tok = pack_token s (l.table s).generation in
      (lookup_live tok l ≡ none) × (lookup_live tok (seal_slot s owner addr n rights l).1 ≡ some s)
unfolding lookup_live seal_slot
lookup_sealed s owner addr n rights l v h dead =
    let w = v.entry s in
    let g = (l.table s).generation in ground (arith, unpack-pack s g h w.gen_pos w.gen_small)

lookup_seal_other :
    (s owner addr n rights t : ℕ) (l : Ledger)
    → slot_of t ≢ s
    → lookup_live t (seal_slot s owner addr n rights l).1 ≡ lookup_live t l
unfolding lookup_live seal_slot
lookup_seal_other s owner addr n rights t l h = ground arith

packed-lt : (s g : ℕ) → s < table_slots → g < 2 ^ 32 → pack_token s g < 2 ^ 64
unfolding pack_token
packed-lt s g h small = omega arith

sealed-Granted :
    (s owner addr n rights : ℕ) (q : PhysBitmap) (k : Kernel)
    → IsSound k.ledger k.phys
    → s < table_slots
    → (k.ledger.table s).live ≡ false
    → Allocated n k.phys addr q
    → Granted owner n rights k (pack_token s (k.ledger.table s).generation) (record {
      ledger = (seal_slot s owner addr n rights k.ledger).1;
      phys = q;
      ram = zero_frames addr n k.ram;
    })
unfolding seal_slot frames_held
sealed-Granted s owner addr n rights q k v h dead a =
    let (new, found) = lookup_sealed s owner addr n rights k.ledger v.ledger h dead in
    record {
      slot = s;
      inside = h;
      word = packed-lt s (k.ledger.table s).generation h (v.ledger.entry s).gen_small;
      dead = dead;
      now_live = ground arith;
      rest = λ i ne. rw ne refl;
      found = unfold seal_slot in found;
      owned = ground arith;
      allowed = ground arith;
      size = ground arith;
      unmapped = ground (arith, (v.ledger.entry s).unpinned dead);
      unknown = new;
      others = λ t ne. lookup_seal_other s owner addr n rights t k.ledger ne;
      generations = λ i. ground arith;
      memory = λ w.
          ground (arith, zero_frames_lem addr n w k.ram (omega (arith, a.inside, v.physical.fits)));
      conserved = ground (
        arith,
        frames_held-update k.ledger.table s (sealed_entry (k.ledger.table s) owner addr n rights) h,
        a.paid,
      );
    }

-- The outcome of an allocation, by the token that it returns.
abbrev pub Outcome : ℕ → ℕ → ℕ → Kernel → ℕ × Kernel → Type 0
Outcome owner n rights k (tok, k') =
    (tok ≢ invalid → Granted owner n rights k tok k') × (tok ≡ invalid → Refused k k')

-- The frames that were cleared were free.
zeroed_free :
    (addr n w : ℕ) (q : PhysBitmap) (k : Kernel)
    → Allocated n k.phys addr q
    → k.phys.total_frames ≤ bitmap_max_frames
    → (zero_frames addr n k.ram w ≡ k.ram w)
      ⊎ ((zero_frames addr n k.ram w ≡ 0) × (bit_test k.phys (w / 512) ≡ true))
zeroed_free addr n w q k a fits =
    let all = zero_frames_lem addr n w k.ram (omega (arith, a.inside, fits)) in
    elim (Bool-cases (in_range (addr / 8) (n * 512) w)) [
      | inl e ↦ inr (
        rw (all, e) refl,
        a.was_free (w / 512) (ground (arith, a.aligned)) (ground (arith, a.aligned)),
      )
      | inr e ↦ inl (rw (all, e) refl)
    ]

seal_frames-Outcome :
    (owner n rights addr : ℕ) (q : PhysBitmap) (k : Kernel)
    → IsSound k.ledger k.phys
    → n ≢ 0
    → Supply n k.phys addr q
    → Outcome owner n rights k (seal_frames owner n rights (addr, q) k)
seal_frames-Outcome owner n rights addr q k v hn supply =
    seal_frames_cases (Outcome owner n rights k) owner n rights addr q k v.ledger hn
      (λ e. (
        λ h. absurd (h refl),
        λ _.
            let same = supply.1 e in
            rw same
              (record { ledger = refl; bits = λ g. refl; free = refl; memory = λ w. inl refl }),
      ))
      (λ e c. (
        λ h. absurd (h refl),
        λ _.
            let a = supply.0 e in
            let back = free-Allocated n addr k.phys q v.physical a in
            record {
              ledger = refl;
              bits = back.0;
              free = back.1;
              memory = λ w. zeroed_free addr n w q k a v.physical.fits;
            },
      ))
      (λ s e inside dead. (
        λ _. sealed-Granted s owner addr n rights q k v inside dead (supply.0 e),
        λ h. absurd (valid_token s k v inside h),
      ))
  where
    valid_token :
        (s : ℕ) (k : Kernel)
        → IsSound k.ledger k.phys
        → s < table_slots
        → pack_token s (k.ledger.table s).generation ≢ 0
    valid_token s k v h =
        (unpack-pack s (k.ledger.table s).generation h (v.ledger.entry s).gen_pos
          (v.ledger.entry s).gen_small).0

-- From a state that satisfies `IsSound`: a token that `xtok_alloc_ram` returns was not live
-- before, is live now with the owner, the rights and the number of frames asked for and no
-- mapping; its memory reads as zero, no other memory and no other token has changed, and the
-- frames came out of the free ones. A call that returns no token leaves the ledger, the bits and
-- the count of free frames as they were; a word of memory that has changed has become 0 and lies in
-- a free frame.
pub xtok_alloc_ram-Outcome :
    (owner n rights : ℕ) (k : Kernel)
    → IsSound k.ledger k.phys
    → Outcome owner n rights k (xtok_alloc_ram owner n rights k)
unfolding xtok_alloc_ram
xtok_alloc_ram-Outcome owner n rights k v =
    if_both (Outcome owner n rights k) (n == 0) _ _
      (λ _. (
        λ h. absurd (h refl),
        λ _. record { ledger = refl; bits = λ g. refl; free = refl; memory = λ w. inl refl },
      ))
      (λ e.
        seal_frames-Outcome owner n rights _ _ k v (ground arith)
          (frames-Supply n k.ledger k.phys v))

-- From a state that satisfies `IsSound`: a token that `xtok_alloc_ram_huge` returns was not live
-- before and is live now, with the owner and the rights asked for, 512 frames that read as zero,
-- and no mapping; no other memory and no other token has changed, and the frames came out of the
-- free ones. A call that returns no token leaves the ledger, the bits and the count of free frames
-- as they were.
pub xtok_alloc_ram_huge-Outcome :
    (owner rights : ℕ) (k : Kernel)
    → IsSound k.ledger k.phys
    → Outcome owner frames_per_huge rights k (xtok_alloc_ram_huge owner rights k)
unfolding xtok_alloc_ram_huge
xtok_alloc_ram_huge-Outcome owner rights k v =
    seal_frames-Outcome owner frames_per_huge rights _ _ k v (omega arith)
      (huge-Supply k.ledger k.phys v)
