-- ===== src/Ledger/Release.antt =====
-- What the releases of token_ledger.c promise.
use xasmos.Base.{
  ℕ, ◌+◌, ◌/◌, ◌≡◌, ◌≢◌, ◌↔◌, refl, Bool, true, false, not, ◌&&◌, Option, none, some, arith, ◌==◌,
  if◌then◌else◌, if_both, bit_and, ◌⊎◌, inl, inr, Bool-cases,
}
use xasmos.Physical.State.{bit_test}
use xasmos.Physical.Range.{in_range}
use xasmos.Physical.Counts.{free_frames-Freed}
use xasmos.Ledger.Table.{
  next_generation, wipe_slot, lookup_live, slot_of, gen_of, released_entry, right_release,
}
use xasmos.Ledger.Ops.{
  Kernel, Release, ok, estale, ebusy, erights, free_entry, release_slot, release_found,
  release_impl, xtok_release_owned, xtok_reclaim,
}
use xasmos.Ledger.Inv.{lookup_live-some}
use xasmos.Ledger.Seal.{lookup-wipe, lookup-wipe_other}
use xasmos.Ledger.Sound.{IsSound, wipe_slot-IsSound, free_entry-Freed}
use xasmos.Ledger.Grant.{frames_held, frames_held-update}

-- The two ways in which a release ends.
pub release_cases {ℓ} :
    (P : Release × Kernel → Type ℓ) (tok : ℕ) (check_right check_owner : Bool) (owner : ℕ)
    (k : Kernel)
    → ((r : Release) → r ≢ ok → P (r, k))
    → ((s : ℕ)
        → lookup_live tok k.ledger ≡ some s
        → (check_owner ≡ true → (k.ledger.table s).owner_id ≡ owner)
        → (check_right ≡ true → bit_and (k.ledger.table s).rights right_release ≢ 0)
        → (k.ledger.table s).map_count ≡ 0
        → P (
          ok,
          record k { ledger = wipe_slot s k.ledger; phys = free_entry (k.ledger.table s) k.phys },
        ))
    → P (release_impl tok check_right check_owner owner k)
unfolding release_impl
release_cases P tok cr co owner k refused released = go (lookup_live tok k.ledger) refl
  where
    go : (o : Option ℕ) → lookup_live tok k.ledger ≡ o → P (release_found o cr co owner k)
    go none e = unfold release_found in refused estale (λ h. cc)
    go (some s) e =
        unfold release_found release_slot in
        if_both P (co && not ((k.ledger.table s).owner_id == owner)) _ _
          (λ _. refused estale (λ h. cc))
          (λ a.
            if_both P (cr && (bit_and (k.ledger.table s).rights right_release == 0)) _ _
              (λ _. refused erights (λ h. cc))
              (λ b.
                if_both P (not ((k.ledger.table s).map_count == 0)) _ _
                  (λ _. refused ebusy (λ h. cc))
                  (λ c. released s e (λ t. ground arith) (λ t z. ground arith) (ground arith))))

-- A release, whatever it checks and however it ends, preserves `IsSound`.
pub release_impl-IsSound :
    (tok : ℕ) (check_right check_owner : Bool) (owner : ℕ) (k : Kernel)
    → IsSound k.ledger k.phys
    → let (r, k') = release_impl tok check_right check_owner owner k in IsSound k'.ledger k'.phys
release_impl-IsSound tok cr co owner k v =
    release_cases (λ (r : Release × Kernel). IsSound r.1.ledger r.1.phys) tok cr co owner k
      (λ r _. v)
      (λ s e _ _ _.
        let l = lookup_live-some tok k.ledger e in wipe_slot-IsSound s k.ledger k.phys v l.0 l.2)

-- What a release that succeeds has done to the token in slot `s`.
pub record Released (tok s : ℕ) (k k' : Kernel) : Type 0 where
  pub was_live : lookup_live tok k.ledger ≡ some s
  pub was_unmapped : (k.ledger.table s).map_count ≡ 0
  pub stale : lookup_live tok k'.ledger ≡ none
  pub expired : (k'.ledger.table (slot_of tok)).generation ≢ gen_of tok
  pub others : (t : ℕ) → slot_of t ≢ s → lookup_live t k'.ledger ≡ lookup_live t k.ledger
  pub rest : (t : ℕ) → (t == s) ≡ false → k'.ledger.table t ≡ k.ledger.table t
  pub frames :
      (g : ℕ)
      → bit_test k'.phys g ≡ (
          if in_range ((k.ledger.table s).phys / 4096) (k.ledger.table s).n_frames g
          then true
          else bit_test k.phys g)
  pub conserved :
      k'.phys.free_frames + frames_held k'.ledger ≡ k.phys.free_frames + frames_held k.ledger

wipe-Released :
    (tok s : ℕ) (k : Kernel)
    → IsSound k.ledger k.phys
    → lookup_live tok k.ledger ≡ some s
    → (k.ledger.table s).map_count ≡ 0
    → Released tok s k
        (record k { ledger = wipe_slot s k.ledger; phys = free_entry (k.ledger.table s) k.phys })
unfolding frames_held
wipe-Released tok s k v e m =
    let l = lookup_live-some tok k.ledger e in
    let w = v.ledger.entry s in
    let f = free_entry-Freed k.ledger.table s k.phys v.physical w l.2 v.backed in
    let paid =
      free_frames-Freed _ _ k.phys (free_entry (k.ledger.table s) k.phys) v.physical f.1 f.0
        (λ g a b. v.backed.used s g (ground (arith, l.2))) (v.backed.inside s l.2) in
    record {
      was_live = e;
      was_unmapped = m;
      stale = lookup-wipe tok s k.ledger e;
      expired = unfold wipe_slot in ground (arith, l, w.gen_pos, w.gen_small);
      others = λ t ne. lookup-wipe_other t s k.ledger ne;
      rest = unfold wipe_slot in λ t ne. rw ne refl;
      frames = f.0.bit;
      conserved =
          unfold wipe_slot in
          ground (
            arith,
            frames_held-update k.ledger.table s (released_entry (k.ledger.table s)) l.0,
            paid,
            l.2,
          );
    }

-- From a state that satisfies `IsSound`: a release that succeeds found the token live and
-- unmapped, owned by the caller where the owner is checked, and with the RELEASE right where that
-- is checked. Afterwards the token is stale and its generation has passed, its frames are free,
-- the entry of every other slot is as before, and the frames have moved from the held ones to the
-- free ones.
pub release_impl-Released :
    (tok : ℕ) (check_right check_owner : Bool) (owner : ℕ) (k : Kernel)
    → IsSound k.ledger k.phys
    → (release_impl tok check_right check_owner owner k).0 ≡ ok
    → (s : ℕ) × Released tok s k (release_impl tok check_right check_owner owner k).1
      × (check_owner ≡ true → (k.ledger.table s).owner_id ≡ owner)
      × (check_right ≡ true → bit_and (k.ledger.table s).rights right_release ≢ 0)
release_impl-Released tok cr co owner k v =
    release_cases
      (λ r.
        r.0 ≡ ok
        → (s : ℕ) × Released tok s k r.1
          × (co ≡ true → (k.ledger.table s).owner_id ≡ owner)
          × (cr ≡ true → bit_and (k.ledger.table s).rights right_release ≢ 0))
      tok cr co owner k (λ r ne e. absurd (ne e))
      (λ s e a b c _. (s, wipe-Released tok s k v e c, a, b))

-- A release that fails changes nothing.
pub release_impl_refused :
    (tok : ℕ) (check_right check_owner : Bool) (owner : ℕ) (k : Kernel)
    → (release_impl tok check_right check_owner owner k).0 ≢ ok
    → (release_impl tok check_right check_owner owner k).1 ≡ k
release_impl_refused tok cr co owner k =
    release_cases (λ r. r.0 ≢ ok → r.1 ≡ k) tok cr co owner k (λ r _ _. refl)
      (λ s _ _ _ _ ne. absurd (ne refl))

-- A release leaves a slot at its generation, or moves it on by one step.
pub release_generation :
    (tok : ℕ) (check_right check_owner : Bool) (owner : ℕ) (k : Kernel) (t : ℕ)
    → let g = ((release_impl tok check_right check_owner owner k).1.ledger.table t).generation in
      let old = (k.ledger.table t).generation in (g ≡ old) ⊎ (g ≡ next_generation old)
release_generation tok cr co owner k t =
    release_cases
      (λ (r : Release × Kernel).
        ((r.1.ledger.table t).generation ≡ (k.ledger.table t).generation)
        ⊎ ((r.1.ledger.table t).generation ≡ next_generation (k.ledger.table t).generation))
      tok cr co owner k (λ r _. inl refl)
      (λ s _ _ _ _.
        unfold wipe_slot in
        elim (Bool-cases (t == s)) [
          | inl e ↦ let same : t ≡ s = ground arith in inr (rw (e, same) refl)
          | inr e ↦ inl (rw e refl)
        ])

stale_found :
    (o : Option ℕ) (owner : ℕ) (k : Kernel)
    → ((release_found o true true owner k).0 ≡ estale)
      ↔ ((s : ℕ) → o ≡ some s → (k.ledger.table s).owner_id ≢ owner)
unfolding release_found release_slot
stale_found none owner k = (λ _ s e _. cc, λ _. refl)
stale_found (some t) owner k = (λ e s h. ground arith, λ h. ground (arith, h t refl))

reclaim_found :
    (o : Option ℕ) (k : Kernel)
    → ((release_found o false false 0 k).0 ≡ ok)
      ↔ ((s : ℕ) × (o ≡ some s) × ((k.ledger.table s).map_count ≡ 0))
unfolding release_found release_slot
reclaim_found none k = (λ e. absurd (cc), λ h. absurd (cc h.1))
reclaim_found (some t) k = (λ e. (t, refl, ground arith), λ h. ground (arith, h.1, h.2))

-- `xtok_release_owned` reports a stale token exactly when no live token of the caller has that
-- name: a foreign token and one that never existed look the same.
pub release_owned_stale :
    (tok owner : ℕ) (k : Kernel)
    → ((xtok_release_owned tok owner k).0 ≡ estale)
      ↔ ((s : ℕ) → lookup_live tok k.ledger ≡ some s → (k.ledger.table s).owner_id ≢ owner)
unfolding xtok_release_owned release_impl
release_owned_stale tok owner k = stale_found (lookup_live tok k.ledger) owner k

-- `xtok_reclaim` succeeds exactly on the live tokens that are not mapped.
pub reclaim_succeeds :
    (tok : ℕ) (k : Kernel)
    → ((xtok_reclaim tok k).0 ≡ ok)
      ↔ ((s : ℕ) × (lookup_live tok k.ledger ≡ some s) × ((k.ledger.table s).map_count ≡ 0))
unfolding xtok_reclaim release_impl
reclaim_succeeds tok k = reclaim_found (lookup_live tok k.ledger) k
