-- ===== src/Ledger/Alloc.antt =====
-- What `xtok_alloc_ram` and `xtok_alloc_ram_huge` promise.
use xasmos.Base.{
  ℕ, ◌<◌, ◌≡◌, ◌≢◌, false, none, arith, ◌==◌, Bool-cases, Option-cases, if_both, inl, inr,
}
use xasmos.Physical.State.{PhysBitmap, phys_free_frames, frames_per_huge}
use xasmos.Physical.Alloc.{phys_alloc_frames, phys_alloc_huge}
use xasmos.Physical.Laws.{Allocated, phys_alloc_frames-Allocated, phys_alloc_frames_fails}
use xasmos.Physical.Contract.{phys_alloc_huge-Allocated, phys_alloc_huge_fails}
use xasmos.Ledger.Table.{
  Ledger, seal_slot, seal_ram_locked, seal_claimed, claim_slot, pack_token, table_slots, invalid,
}
use xasmos.Ledger.Ops.{Kernel, zero_frames, seal_frames, xtok_alloc_ram, xtok_alloc_ram_huge}
use xasmos.Ledger.Inv.{IsLedger, claim_slot-free, unpack-pack}
use xasmos.Ledger.Sound.{IsSound, seal_slot-IsSound, undo-IsSound}

-- The three ways in which the sealing of frames ends.
pub seal_frames_cases {ℓ} :
    (P : ℕ × Kernel → Type ℓ) (owner n rights addr : ℕ) (q : PhysBitmap) (k : Kernel)
    → IsLedger k.ledger
    → n ≢ 0
    → (addr ≡ 0 → P (invalid, record k { phys = q }))
    → (addr ≢ 0
        → claim_slot k.ledger ≡ none
        → P (
          invalid,
          record {
            ledger = k.ledger;
            phys = phys_free_frames addr n q;
            ram = zero_frames addr n k.ram;
          },
        ))
    → ((s : ℕ)
        → addr ≢ 0
        → s < table_slots
        → (k.ledger.table s).live ≡ false
        → P (
          pack_token s (k.ledger.table s).generation,
          record {
            ledger = (seal_slot s owner addr n rights k.ledger).1;
            phys = q;
            ram = zero_frames addr n k.ram;
          },
        ))
    → P (seal_frames owner n rights (addr, q) k)
unfolding seal_frames seal_ram_locked seal_claimed seal_slot
seal_frames_cases P owner n rights addr q k v hn failed full sealed =
    let some_frames : (n == 0) ≡ false = ground arith in
    elim (Bool-cases (addr == 0)) [
      | inl e ↦ rw e (failed (ground arith))
      | inr e ↦
          let addressed : addr ≢ 0 = ground arith in
          elim (Option-cases (claim_slot k.ledger)) [
            | inl c ↦ rw (e, some_frames, c) (full addressed c)
            | inr (s, c) ↦
                let (inside, dead) = claim_slot-free k.ledger c in
                let w = v.entry s in
                let valid : (pack_token s (k.ledger.table s).generation == 0) ≡ false = ground (
                  arith,
                  unpack-pack s (k.ledger.table s).generation inside w.gen_pos w.gen_small,
                ) in
                rw (e, some_frames, c, valid) (sealed s addressed inside dead)
          ]
    ]

-- Frames that were allocated for it, or the bitmap as it was.
abbrev pub Supply : ℕ → PhysBitmap → ℕ → PhysBitmap → Type 0
Supply n p addr q = (addr ≢ 0 → Allocated n p addr q) × (addr ≡ 0 → q ≡ p)

seal_frames-IsSound :
    (owner n rights addr : ℕ) (q : PhysBitmap) (k : Kernel)
    → IsSound k.ledger k.phys
    → n ≢ 0
    → Supply n k.phys addr q
    → let (tok, k') = seal_frames owner n rights (addr, q) k in IsSound k'.ledger k'.phys
seal_frames-IsSound owner n rights addr q k v hn supply =
    seal_frames_cases (λ r. IsSound r.1.ledger r.1.phys) owner n rights addr q k v.ledger hn
      (λ e. rw (supply.1 e) v) (λ e c. undo-IsSound addr n k.ledger k.phys q v (supply.0 e))
      (λ s e inside dead.
        seal_slot-IsSound s owner addr n rights k.ledger k.phys q v inside dead e hn (supply.0 e))

pub frames-Supply :
    (n : ℕ) (l : Ledger) (p : PhysBitmap)
    → IsSound l p
    → Supply n p (phys_alloc_frames n p).0 (phys_alloc_frames n p).1
frames-Supply n l p v =
    (phys_alloc_frames-Allocated n p v.physical, phys_alloc_frames_fails n p v.physical v.reserved)

-- An allocation, whether it succeeds, finds no frames or finds the table full, preserves
-- `IsSound`: every live token holds frames of its own that are inside the bitmap and used there,
-- and the counts of live tokens and of free frames are exact.
pub xtok_alloc_ram-IsSound :
    (owner n rights : ℕ) (k : Kernel)
    → IsSound k.ledger k.phys
    → let (tok, k') = xtok_alloc_ram owner n rights k in IsSound k'.ledger k'.phys
unfolding xtok_alloc_ram
xtok_alloc_ram-IsSound owner n rights k v =
    if_both (λ (r : ℕ × Kernel). IsSound r.1.ledger r.1.phys) (n == 0) _ _ (λ _. v)
      (λ e.
        seal_frames-IsSound owner n rights _ _ k v (ground arith)
          (frames-Supply n k.ledger k.phys v))

pub huge-Supply :
    (l : Ledger) (p : PhysBitmap)
    → IsSound l p
    → Supply frames_per_huge p (phys_alloc_huge p).0 (phys_alloc_huge p).1
huge-Supply l p v = (
  λ h. (phys_alloc_huge-Allocated p v.physical h).1,
  phys_alloc_huge_fails p v.physical v.reserved,
)

-- A huge allocation, whether it succeeds, finds no frames or finds the table full, preserves
-- `IsSound`.
pub xtok_alloc_ram_huge-IsSound :
    (owner rights : ℕ) (k : Kernel)
    → IsSound k.ledger k.phys
    → let (tok, k') = xtok_alloc_ram_huge owner rights k in IsSound k'.ledger k'.phys
unfolding xtok_alloc_ram_huge
xtok_alloc_ram_huge-IsSound owner rights k v =
    seal_frames-IsSound owner frames_per_huge rights _ _ k v (omega arith)
      (huge-Supply k.ledger k.phys v)
