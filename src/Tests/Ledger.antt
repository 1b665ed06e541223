-- ===== src/Tests/Ledger.antt =====
-- The theorems on source/arch/amd64/kernel/xeret/mem/token_ledger.c, on a kernel of eight frames.
use xasmos.Base.{arith, ℕ, ◌≡◌, ◌≢◌, refl, true, false, none, [], ◌∷◌, bit_and}
use xasmos.Bitmap.{test_byte, test}
use xasmos.Physical.Alloc.{scan, taken, phys_alloc_frames}
use xasmos.Ledger.Table.{
  xtok_init, lookup_live, pack_token, claim_slot, claim_from, seal_slot, seal_claimed,
  seal_ram_locked,
}
use xasmos.Ledger.Ops.{
  Kernel, ok, seal_frames, xtok_alloc_ram, release_impl, release_found, release_slot, pinned,
  xtok_map_acquire, acquire_found, acquire_slot,
}
use xasmos.Ledger.Sound.{IsSound, xtok_init-IsSound}
use xasmos.Ledger.Alloc.{xtok_alloc_ram-IsSound}
use xasmos.Ledger.Grant.{Outcome, xtok_alloc_ram-Outcome}
use xasmos.Ledger.Release.{Released, release_impl-IsSound, release_impl-Released}
use xasmos.Ledger.Stale.{alloc, release, run_calls, stale_after_release}
use xasmos.Ledger.Pin.{Pinned, map_acquire-IsSound, map_acquire-Pinned, pinned_not_released}
use xasmos.Tests.Physical.{eight, eight-IsValid, eight_low}

abbrev pub booted : Kernel
booted = record { ledger = xtok_init; phys = eight; ram = λ _. 7 }

pub booted-IsSound : IsSound booted.ledger booted.phys
booted-IsSound = xtok_init-IsSound eight eight-IsValid eight_low

-- Owner 3 has taken two frames, with the rights to read, map and release.
abbrev pub one_token : Kernel
one_token = (xtok_alloc_ram 3 2 41 booted).1

pub one_token-IsSound : IsSound one_token.ledger one_token.phys
one_token-IsSound = xtok_alloc_ram-IsSound 3 2 41 booted booted-IsSound

first_token : (xtok_alloc_ram 3 2 41 booted).0 ≡ 1
unfolding xtok_alloc_ram seal_frames phys_alloc_frames taken scan test test_byte seal_ram_locked
    claim_slot claim_from xtok_init seal_claimed seal_slot pack_token
first_token = refl

released : (release_impl 1 true true 3 one_token).0 ≡ ok
unfolding xtok_alloc_ram seal_frames phys_alloc_frames taken scan test test_byte seal_ram_locked
    claim_slot claim_from xtok_init seal_claimed seal_slot pack_token release_impl release_found
    release_slot lookup_live
released = refl

xtok_alloc_ram-IsSound_example :
    let (tok, k') = xtok_alloc_ram 4 1 9 one_token in IsSound k'.ledger k'.phys
xtok_alloc_ram-IsSound_example = xtok_alloc_ram-IsSound 4 1 9 one_token one_token-IsSound

xtok_alloc_ram-Outcome_example : Outcome 4 1 9 one_token (xtok_alloc_ram 4 1 9 one_token)
xtok_alloc_ram-Outcome_example = xtok_alloc_ram-Outcome 4 1 9 one_token one_token-IsSound

release_impl-IsSound_example :
    let (r, k') = release_impl 1 true true 3 one_token in IsSound k'.ledger k'.phys
release_impl-IsSound_example = release_impl-IsSound 1 true true 3 one_token one_token-IsSound

release_impl-Released_example :
    (s : ℕ) × Released 1 s one_token (release_impl 1 true true 3 one_token).1
    × (true ≡ true → (one_token.ledger.table s).owner_id ≡ 3)
    × (true ≡ true → bit_and (one_token.ledger.table s).rights 32 ≢ 0)
release_impl-Released_example =
    release_impl-Released 1 true true 3 one_token one_token-IsSound released

stale_after_release_example :
    lookup_live 1
      (run_calls
        (alloc 4 2 9 ∷ release 0x200000000 true true 4 ∷ alloc 5 1 1 ∷ [])
        (release_impl 1 true true 3 one_token).1).ledger
    ≡ none
stale_after_release_example =
    stale_after_release (alloc 4 2 9 ∷ release 0x200000000 true true 4 ∷ alloc 5 1 1 ∷ []) 1 true
      true 3 one_token one_token-IsSound released (omega arith)

mapped : (xtok_map_acquire 1 3 9 one_token.ledger).0 ≡ pinned 4096 2
unfolding xtok_alloc_ram seal_frames phys_alloc_frames taken scan test test_byte seal_ram_locked
    claim_slot claim_from xtok_init seal_claimed seal_slot pack_token xtok_map_acquire acquire_found
    acquire_slot lookup_live
mapped = refl

map_acquire-IsSound_example : IsSound (xtok_map_acquire 1 3 9 one_token.ledger).1 one_token.phys
map_acquire-IsSound_example =
    map_acquire-IsSound 1 3 9 one_token.ledger one_token.phys one_token-IsSound

map_acquire-Pinned_example :
    Pinned 1 3 9 4096 2 one_token.ledger (xtok_map_acquire 1 3 9 one_token.ledger).1
map_acquire-Pinned_example =
    map_acquire-Pinned 1 3 9 one_token.ledger one_token-IsSound.ledger mapped

pinned_not_released_example :
    let k' = record one_token { ledger = (xtok_map_acquire 1 3 9 one_token.ledger).1 } in
    (release_impl 1 false false 0 k').0 ≢ ok
pinned_not_released_example =
    pinned_not_released 1 3 9 false false 0 one_token one_token-IsSound mapped
