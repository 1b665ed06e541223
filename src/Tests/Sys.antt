-- ===== src/Tests/Sys.antt =====
-- The theorems on the resource syscalls of source/arch/amd64/kernel/xeret/sys.c, on the kernel of
-- eight frames.
use xasmos.Base.{◌≡◌, ◌≢◌, refl, ◌==◌, for_up}
use xasmos.Bitmap.{test_byte, test}
use xasmos.Physical.Alloc.{scan, taken, phys_alloc_frames}
use xasmos.Ledger.Table.{
  xtok_init, claim_slot, claim_from, seal_slot, seal_claimed, seal_ram_locked, pack_token,
}
use xasmos.Ledger.Ops.{seal_frames, xtok_alloc_ram, xtok_owner_usage, add_usage}
use xasmos.Sys.Calls.{Quotas, success, nomem, quota_of, sys_alloc}
use xasmos.Sys.Usage.{frames_sum, tokens_sum, owner_usage-sums}
use xasmos.Sys.Laws.{Allotted, sys_alloc-Allotted}
use xasmos.Tests.Ledger.{booted, booted-IsSound}

-- Owner 3 may hold four frames and two tokens; the other owners have the defaults.
abbrev pub quotas : Quotas
quotas owner = record { frames = 4; tokens = 2; set = owner == 3 }

owner_usage-sums_example :
    ((xtok_owner_usage 3 booted.ledger).frames ≡ frames_sum 3 booted.ledger)
    × ((xtok_owner_usage 3 booted.ledger).tokens ≡ tokens_sum 3 booted.ledger)
owner_usage-sums_example = owner_usage-sums 3 booted.ledger booted.phys booted-IsSound

allotted : (sys_alloc 3 4 9 quotas booted).0.rax ≡ success
unfolding sys_alloc quota_of xtok_owner_usage for_up add_usage xtok_init xtok_alloc_ram seal_frames
    phys_alloc_frames taken scan test test_byte seal_ram_locked claim_slot claim_from seal_claimed
    seal_slot pack_token
allotted = refl

sys_alloc-Allotted_example :
    Allotted 3 4 9 quotas booted (sys_alloc 3 4 9 quotas booted).0 (sys_alloc 3 4 9 quotas booted).1
sys_alloc-Allotted_example = sys_alloc-Allotted 3 4 9 quotas booted booted-IsSound allotted

beyond_quota : (sys_alloc 3 5 9 quotas booted).0.rax ≡ nomem
unfolding sys_alloc quota_of xtok_owner_usage for_up add_usage xtok_init xtok_alloc_ram
beyond_quota = refl

nomem_is_failure : nomem ≢ success
nomem_is_failure e = cc
