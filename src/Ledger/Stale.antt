-- ===== src/Ledger/Stale.antt =====
-- A released token of token_ledger.c, and the calls that follow its release.
use xasmos.Base.{
  ℕ, ◌+◌, ◌-◌, ◌^◌, ◌≤◌, ◌<◌, ◌≡◌, ◌≢◌, Bool, none, arith, ◌==◌, Bool-cases, inl, inr, ◌⊎◌, ap,
  List, [], ◌∷◌,
}
use xasmos.Ledger.Table.{Ledger, lookup_live, slot_of, gen_of, next_generation}
use xasmos.Ledger.Ops.{Kernel, ok, release_impl, xtok_alloc_ram, xtok_alloc_ram_huge}
use xasmos.Ledger.Inv.{lookup_live-some}
use xasmos.Ledger.Sound.{IsSound}
use xasmos.Ledger.Alloc.{xtok_alloc_ram-IsSound, xtok_alloc_ram_huge-IsSound}
use xasmos.Ledger.Grant.{Outcome, xtok_alloc_ram-Outcome, xtok_alloc_ram_huge-Outcome}
use xasmos.Ledger.Release.{release_impl-IsSound, release_impl-Released, release_generation}

-- A call that seals or wipes slots. A release checks the right and the owner as its caller asks.
pub data Call : Type 0 where
  alloc : (owner n rights : ℕ) → Call
  alloc_huge : (owner rights : ℕ) → Call
  release : (tok : ℕ) (check_right check_owner : Bool) (owner : ℕ) → Call

abbrev pub run_call : Call → Kernel → Kernel
run_call (alloc owner n rights) k = (xtok_alloc_ram owner n rights k).1
run_call (alloc_huge owner rights) k = (xtok_alloc_ram_huge owner rights k).1
run_call (release tok check_right check_owner owner) k =
    (release_impl tok check_right check_owner owner k).1

-- The calls one after the other.
abbrev pub run_calls : List Call → Kernel → Kernel
run_calls [] k = k
run_calls (c ∷ rest) k = run_calls rest (run_call c k)

abbrev pub releases : List Call → ℕ
releases [] = 0
releases (alloc owner n rights ∷ rest) = releases rest
releases (alloc_huge owner rights ∷ rest) = releases rest
releases (release tok check_right check_owner owner ∷ rest) = releases rest + 1

expired_lookup :
    (tok : ℕ) (l : Ledger)
    → (l.table (slot_of tok)).generation ≢ gen_of tok
    → lookup_live tok l ≡ none
unfolding lookup_live
expired_lookup tok l h = ground arith

-- Generation `g` comes `d` steps after generation `old`, from 1 to 2^32 - 1 and around.
abbrev Steps : ℕ → ℕ → ℕ → Type 0
Steps old d g = (1 ≤ g) × (g < 2 ^ 32) × ((g ≡ old + d) ⊎ (g + (2 ^ 32 - 1) ≡ old + d))

Steps-next :
    (old d g : ℕ)
    → d + 1 < 2 ^ 32 - 1
    → old < 2 ^ 32
    → Steps old d g
    → Steps old (d + 1) (next_generation g)
Steps-next old d g small word (lo, hi, inl e) = ground (arith, e)
Steps-next old d g small word (lo, hi, inr e) = ground (arith, e)

-- A token whose slot is between one and 2^32 - 2 steps ahead.
abbrev Ahead : ℕ → ℕ → Kernel → Type 0
Ahead tok most k =
    (d : ℕ) × (1 ≤ d) × (d ≤ most) × Steps (gen_of tok) d (k.ledger.table (slot_of tok)).generation

granted_generation :
    (owner n rights : ℕ) (k : Kernel) (r : ℕ × Kernel) (s : ℕ)
    → Outcome owner n rights k r
    → (r.1.ledger.table s).generation ≡ (k.ledger.table s).generation
granted_generation owner n rights k (tok, k') s o = elim (Bool-cases (tok == 0)) [
  | inl e ↦ ap (λ (l : Ledger). (l.table s).generation) (o.1 (ground arith)).ledger
  | inr e ↦ (o.0 (ground arith)).generations s
]

run_calls_stale :
    (calls : List Call) (tok most : ℕ) (k : Kernel)
    → IsSound k.ledger k.phys
    → gen_of tok < 2 ^ 32
    → most + releases calls < 2 ^ 32 - 1
    → Ahead tok most k
    → lookup_live tok (run_calls calls k).ledger ≡ none
run_calls_stale [] tok most k v word few (d, lo, hi, (g, h, inl e)) =
    expired_lookup tok k.ledger (λ same. absurd (omega (arith, e, same)))
run_calls_stale [] tok most k v word few (d, lo, hi, (g, h, inr e)) =
    expired_lookup tok k.ledger (λ same. absurd (omega (arith, e, same)))
run_calls_stale (alloc owner n rights ∷ rest) tok most k v word few (d, lo, hi, steps) =
    run_calls_stale rest tok most (xtok_alloc_ram owner n rights k).1
      (xtok_alloc_ram-IsSound owner n rights k v) word few
      (
        d,
        lo,
        hi,
        rw
            (granted_generation owner n rights k (xtok_alloc_ram owner n rights k) (slot_of tok)
              (xtok_alloc_ram-Outcome owner n rights k v))
            steps,
      )
run_calls_stale (alloc_huge owner rights ∷ rest) tok most k v word few (d, lo, hi, steps) =
    run_calls_stale rest tok most (xtok_alloc_ram_huge owner rights k).1
      (xtok_alloc_ram_huge-IsSound owner rights k v) word few
      (
        d,
        lo,
        hi,
        rw
            (granted_generation owner 512 rights k (xtok_alloc_ram_huge owner rights k)
              (slot_of tok) (xtok_alloc_ram_huge-Outcome owner rights k v))
            steps,
      )
run_calls_stale (release t cr co owner ∷ rest) tok most k v word few (d, lo, hi, steps) =
    run_calls_stale rest tok (most + 1) (release_impl t cr co owner k).1
      (release_impl-IsSound t cr co owner k v) word (omega arith)
      (elim (release_generation t cr co owner k (slot_of tok)) [
        | inl e ↦ (d, lo, omega arith, rw e steps)
        | inr e ↦ (
          d + 1,
          omega arith,
          omega arith,
          rw e (Steps-next (gen_of tok) d _ (omega arith) word steps),
        )
      ])

-- While the ledger and the bitmap satisfy `IsSound`: a token whose release succeeds stays stale
-- through any sequence of allocations and releases with fewer than 2^32 - 2 releases, although its
-- slot and its frames may be sealed again many times.
pub stale_after_release :
    (calls : List Call) (tok : ℕ) (check_right check_owner : Bool) (owner : ℕ) (k : Kernel)
    → IsSound k.ledger k.phys
    → (release_impl tok check_right check_owner owner k).0 ≡ ok
    → releases calls < 2 ^ 32 - 2
    → lookup_live tok (run_calls calls (release_impl tok check_right check_owner owner k).1).ledger
      ≡ none
stale_after_release calls tok cr co owner k v e few =
    let (s, r, _, _) = release_impl-Released tok cr co owner k v e in
    let live = lookup_live-some tok k.ledger r.was_live in
    let w = v.ledger.entry (slot_of tok) in
    let word : gen_of tok < 2 ^ 32 = omega (arith, live.3, (v.ledger.entry s).gen_small) in
    run_calls_stale calls tok 1 (release_impl tok cr co owner k).1
      (release_impl-IsSound tok cr co owner k v) word (omega arith)
      (
        1,
        omega arith,
        omega arith,
        elim (release_generation tok cr co owner k (slot_of tok)) [
          | inl same ↦ absurd (r.expired (ground (arith, same, live)))
          | inr next ↦ rw next (ground (arith, live, w.gen_pos, w.gen_small))
        ],
      )
