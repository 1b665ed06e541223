-- ===== src/Sys/Usage.antt =====
-- The usage that `xtok_owner_usage` reports, as a plain sum over the table.
use xasmos.Base.{
  ℕ, ◌+◌, ◌^◌, ◌<◌, ◌≡◌, refl, Bool, ◌&&◌, arith, ◌==◌, if◌then◌else◌, sum_below, for_up_inv,
  sum_below-add_one, sum_below-le,
}
use xasmos.Physical.State.{PhysBitmap}
use xasmos.Ledger.Table.{Ledger, XTokenEntry, table_slots}
use xasmos.Ledger.Ops.{Usage, add_usage, xtok_owner_usage}
use xasmos.Ledger.Sound.{IsSound}

abbrev pub is_of : ℕ → XTokenEntry → Bool
is_of owner e = e.live && (e.owner_id == owner)

abbrev pub frames_of : ℕ → XTokenEntry → ℕ
frames_of owner e = if is_of owner e then e.n_frames else 0

abbrev pub token_of : ℕ → XTokenEntry → ℕ
token_of owner e = if is_of owner e then 1 else 0

-- The frames and the tokens of an owner, added up over the table.
unfoldable pub frames_sum : ℕ → Ledger → ℕ
frames_sum owner l = sum_below table_slots (λ s. frames_of owner (l.table s))

unfoldable pub tokens_sum : ℕ → Ledger → ℕ
tokens_sum owner l = sum_below table_slots (λ s. token_of owner (l.table s))

abbrev Summed : ℕ → Ledger → ℕ → Usage → Type 0
Summed owner l i u =
    (u.frames ≡ sum_below i (λ s. frames_of owner (l.table s)))
    × (u.tokens ≡ sum_below i (λ s. token_of owner (l.table s)))

usage_step :
    (owner : ℕ) (l : Ledger) (p : PhysBitmap) (i : ℕ) (u : Usage)
    → IsSound l p
    → i < table_slots
    → Summed owner l i u
    → Summed owner l (i + 1) (add_usage owner l i u)
unfolding add_usage
usage_step owner l p i u v h e =
    let few = sum_below-le i 1 (λ s. token_of owner (l.table s)) (λ s _. ground arith) in
    let small =
      sum_below-le i (2 ^ 25) (λ s. frames_of owner (l.table s))
        (λ s _. ground (arith, v.backed.inside s, v.physical.fits)) in
    ground (
      arith,
      e,
      few,
      small,
      v.backed.inside i,
      v.physical.fits,
      sum_below-add_one i (λ s. frames_of owner (l.table s)),
      sum_below-add_one i (λ s. token_of owner (l.table s)),
    )

-- While `IsSound` holds, no sum of `xtok_owner_usage` wraps: it reports the number of frames and
-- of tokens that the owner holds.
pub owner_usage-sums :
    (owner : ℕ) (l : Ledger) (p : PhysBitmap)
    → IsSound l p
    → ((xtok_owner_usage owner l).frames ≡ frames_sum owner l)
      × ((xtok_owner_usage owner l).tokens ≡ tokens_sum owner l)
unfolding xtok_owner_usage frames_sum tokens_sum sum_below
owner_usage-sums owner l p v =
    for_up_inv (Summed owner l) (add_usage owner l) table_slots 0 table_slots
      (λ i u _ h e. usage_step owner l p i u v h e) (record { frames = 0; tokens = 0 })
      (omega arith) (refl, refl)
