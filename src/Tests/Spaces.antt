-- ===== src/Tests/Spaces.antt =====
-- The theorems on source/arch/amd64/kernel/xeret/mem/paging.c and on `xproc_reap` of sys.c, on the
-- kernel of eight frames: owner 3 has a token of two frames, owner 4 one of a single frame, and
-- each token is mapped once.
use xasmos.Base.{
  ℕ, ◌==◌, if◌then◌else◌, Bool-cases, inl, inr, ◌∙◌, ◌≡◌, ◌≢◌, refl, true, false, some, arith,
  update, for_up,
}
use xasmos.Physical.State.{bit_test}
use xasmos.Bitmap.{test_byte, test, weigh, clear, clear_byte}
use xasmos.Physical.Alloc.{scan, taken, take_run, phys_alloc_frames}
use xasmos.Ledger.Table.{
  lookup_live, xtok_init, claim_slot, claim_from, seal_slot, seal_claimed, seal_ram_locked,
  pack_token,
}
use xasmos.Ledger.Ops.{seal_frames, xtok_alloc_ram, set_map_count}
use xasmos.Ledger.Inv.{lookup_live-some}
use xasmos.Ledger.Pin.{set_map_count-IsSound, lookup-set_map_count}
use xasmos.Paging.Spaces.{MapRec, XAspace, Vm, xas_create, xas_map, xas_unmap, xas_revoke_token}
use xasmos.Paging.Pins.{HasToken, IsPinned-update}
use xasmos.Paging.Walk.{IsTables}
use xasmos.Paging.Walk.Pages.{MapPages, xas_map-MapPages}
use xasmos.Paging.Coherent.{IsCoherent}
use xasmos.Paging.Drops.{UnmapOutcome, xas_unmap-Outcome}
use xasmos.Paging.Revoke.{Revoked, xas_revoke_token-Revoked}
use xasmos.Paging.Create.{CreateOutcome, xas_create-Outcome, Shared, xas_create-Shared}
use xasmos.Sys.Coherent.{with_kernel, xtok_alloc_ram-IsCoherent}
use xasmos.Sys.Spaces.{Frame, xsys_resource, xproc_reap}
use xasmos.Sys.Reach.{
  Booted, Reach, start, later, create, syscall, revoke, alloc, boot-IsCoherent, Reach-IsCoherent,
  owners_apart, maps_frame,
}
use xasmos.Sys.Reclaim.{Gone, xproc_reap-Gone}
use xasmos.Tests.Physical.{eight-IsValid, eight_low}
use xasmos.Tests.Ledger.{booted}
use xasmos.Tests.Sys.{quotas}

abbrev no_record : MapRec
no_record = record { as_pml4 = 0; owner = 0; virt = 0; tok = 0; pages = 0; live = false }

abbrev booted_vm : Vm
booted_vm = record { kernel = booted; maps = λ _. no_record; pml4_phys = 28672 }

booted_vm-Booted : Booted booted_vm
booted_vm-Booted = record {
  ledger = refl;
  valid = eight-IsValid;
  reserved = eight_low;
  empty = λ i. refl;
}

-- Owner 3 takes two frames and owner 4 one.
abbrev three_taken : Vm
three_taken = with_kernel booted_vm (xtok_alloc_ram 3 2 41 booted).1

abbrev idle : Vm
idle = with_kernel three_taken (xtok_alloc_ram 4 1 41 three_taken.kernel).1

idle-IsCoherent : IsCoherent idle
idle-IsCoherent =
    xtok_alloc_ram-IsCoherent 4 1 41 three_taken
      (xtok_alloc_ram-IsCoherent 3 2 41 booted_vm (boot-IsCoherent booted_vm booted_vm-Booted))

abbrev space : XAspace
space = record { pml4_phys = 20480; owner_id = 3; live = true }

abbrev first_mapping : MapRec
first_mapping = record {
  as_pml4 = 20480;
  owner = 3;
  virt = 0x8000000000;
  tok = 1;
  pages = 2;
  live = true;
}

abbrev second_mapping : MapRec
second_mapping = record {
  as_pml4 = 24576;
  owner = 4;
  virt = 0x8000000000;
  tok = 0x100000001;
  pages = 1;
  live = true;
}

first_found : lookup_live 1 idle.kernel.ledger ≡ some 0
unfolding xtok_alloc_ram seal_frames phys_alloc_frames taken scan test test_byte seal_ram_locked
    claim_slot claim_from xtok_init seal_claimed seal_slot pack_token take_run for_up clear
    clear_byte lookup_live
first_found = refl

first-HasToken : HasToken idle.kernel.ledger first_mapping
unfolding xtok_alloc_ram seal_frames phys_alloc_frames taken scan test test_byte seal_ram_locked
    claim_slot claim_from xtok_init seal_claimed seal_slot pack_token take_run for_up clear
    clear_byte lookup_live
first-HasToken = record { found = refl; word = omega arith; owner = refl; pages = refl }

abbrev one_mapped : Vm
one_mapped = record idle {
  kernel = record idle.kernel { ledger = set_map_count 0 1 idle.kernel.ledger };
  maps = update idle.maps 7 first_mapping;
}

first_unmapped : (idle.kernel.ledger.table 0).map_count ≡ 0
unfolding xtok_alloc_ram seal_frames phys_alloc_frames taken scan test test_byte seal_ram_locked
    claim_slot claim_from xtok_init seal_claimed seal_slot pack_token take_run for_up clear
    clear_byte
first_unmapped = refl

one_mapped-IsCoherent : IsCoherent one_mapped
unfolding weigh
one_mapped-IsCoherent = record {
  sound =
      set_map_count-IsSound 0 1 idle.kernel.ledger idle.kernel.phys (omega arith)
        (lookup_live-some 1 idle.kernel.ledger first_found).2 idle-IsCoherent.sound;
  pinned =
      IsPinned-update 0 1 7 first_mapping idle.kernel.ledger idle.maps (omega arith)
        (omega (arith, first_unmapped)) (λ t h. ground arith) (λ _. first-HasToken)
        idle-IsCoherent.pinned;
}

second_found : lookup_live 0x100000001 idle.kernel.ledger ≡ some 1
unfolding xtok_alloc_ram seal_frames phys_alloc_frames taken scan test test_byte seal_ram_locked
    claim_slot claim_from xtok_init seal_claimed seal_slot pack_token take_run for_up clear
    clear_byte lookup_live
second_found = refl

second-HasToken : HasToken one_mapped.kernel.ledger second_mapping
unfolding xtok_alloc_ram seal_frames phys_alloc_frames taken scan test test_byte seal_ram_locked
    claim_slot claim_from xtok_init seal_claimed seal_slot pack_token take_run for_up clear
    clear_byte lookup_live
second-HasToken = record { found = refl; word = omega arith; owner = refl; pages = refl }

second_unmapped : (one_mapped.kernel.ledger.table 1).map_count ≡ 0
unfolding xtok_alloc_ram seal_frames phys_alloc_frames taken scan test test_byte seal_ram_locked
    claim_slot claim_from xtok_init seal_claimed seal_slot pack_token take_run for_up clear
    clear_byte
second_unmapped = refl

abbrev pub two_mapped : Vm
two_mapped = record one_mapped {
  kernel = record one_mapped.kernel { ledger = set_map_count 1 1 one_mapped.kernel.ledger };
  maps = update one_mapped.maps 9 second_mapping;
}

second_live : lookup_live 0x100000001 one_mapped.kernel.ledger ≡ some 1
second_live = lookup-set_map_count 0x100000001 0 1 idle.kernel.ledger ∙ second_found

pub two_mapped-IsCoherent : IsCoherent two_mapped
unfolding weigh
two_mapped-IsCoherent = record {
  sound =
      set_map_count-IsSound 1 1 one_mapped.kernel.ledger one_mapped.kernel.phys (omega arith)
        (lookup_live-some 0x100000001 one_mapped.kernel.ledger second_live).2
        one_mapped-IsCoherent.sound;
  pinned =
      IsPinned-update 1 1 9 second_mapping one_mapped.kernel.ledger one_mapped.maps (omega arith)
        (omega (arith, second_unmapped)) (λ t h. ground arith) (λ _. second-HasToken)
        one_mapped-IsCoherent.pinned;
}

-- Owner 3 takes more memory while both mappings are live.
abbrev busy_vm : Vm
busy_vm = with_kernel two_mapped (xtok_alloc_ram 3 1 41 two_mapped.kernel).1

busy-Reach : Reach two_mapped busy_vm
busy-Reach = later start (alloc 3 1 41)

first_frame : maps_frame busy_vm 7 2 ≡ true
unfolding xtok_alloc_ram seal_frames phys_alloc_frames taken scan test test_byte seal_ram_locked
    claim_slot claim_from xtok_init seal_claimed seal_slot pack_token take_run for_up clear
    clear_byte
first_frame = refl

owners_differ : (busy_vm.maps 7).owner ≢ (busy_vm.maps 9).owner
owners_differ e = absurd (omega (arith, e))

owners_apart_example : maps_frame busy_vm 9 2 ≡ false
owners_apart_example =
    owners_apart 7 9 2 two_mapped-IsCoherent busy-Reach (omega arith) (omega arith) refl refl
      owners_differ first_frame

-- A space is made, a program asks for two frames and maps them, and the token is revoked.
abbrev created : Vm
created = (xas_create 3 booted_vm).2

abbrev asked : Frame
asked = record { rax = 4; rdi = 2; rsi = 41; rdx = 0 }

abbrev served : Vm
served = (xsys_resource space asked quotas created).2

abbrev mapping : Frame
mapping = record { rax = 5; rdi = 1; rsi = 0x8000000000; rdx = 1 }

abbrev after_map : Vm
after_map = (xsys_resource space mapping quotas served).2

Reach-IsCoherent_example : IsCoherent (xas_revoke_token 1 after_map).1
Reach-IsCoherent_example = Reach-IsCoherent booted_vm-Booted (
    later
      (later (later (later start (create 3)) (syscall space asked quotas (omega arith)))
        (syscall space mapping quotas (omega arith)))
      (revoke 1))

xas_unmap-Outcome_example :
    UnmapOutcome space 0x8000000000 two_mapped (xas_unmap (some space) 0x8000000000 two_mapped)
xas_unmap-Outcome_example = xas_unmap-Outcome space 0x8000000000 two_mapped two_mapped-IsCoherent

xas_revoke_token-Revoked_example :
    Revoked 1 0 two_mapped (xas_revoke_token 1 two_mapped).0 (xas_revoke_token 1 two_mapped).1
xas_revoke_token-Revoked_example =
    xas_revoke_token-Revoked 1 0 two_mapped two_mapped-IsCoherent (omega arith) (
      lookup-set_map_count 1 1 1 one_mapped.kernel.ledger
      ∙ lookup-set_map_count 1 0 1 idle.kernel.ledger
      ∙ first_found)

xas_create-Outcome_example : CreateOutcome 5 two_mapped (xas_create 5 two_mapped)
xas_create-Outcome_example = xas_create-Outcome 5 two_mapped two_mapped-IsCoherent

xproc_reap-Gone_example : Gone space two_mapped (xproc_reap (some space) two_mapped)
xproc_reap-Gone_example = xproc_reap-Gone space two_mapped two_mapped-IsCoherent refl

-- The kernel has taken two frames for its own top table and that of a space. Memory reads as zero: no
-- table has an entry.
abbrev with_tables : Vm
with_tables = with_kernel idle (xtok_alloc_ram 0 2 41 idle.kernel).1

abbrev clean : Vm
clean = record with_tables {
  kernel = record with_tables.kernel { ram = λ _. 0 };
  pml4_phys = 16384;
}

abbrev other_space : XAspace
other_space = record { pml4_phys = 20480; owner_id = 4; live = true }

with_tables-IsCoherent : IsCoherent with_tables
with_tables-IsCoherent = xtok_alloc_ram-IsCoherent 0 2 41 idle idle-IsCoherent

clean-IsCoherent : IsCoherent clean
clean-IsCoherent = record {
  sound = with_tables-IsCoherent.sound;
  pinned = with_tables-IsCoherent.pinned;
}

-- The top table of the space is the one table.
abbrev levels : ℕ → ℕ
levels f = if f == 5 then 4 else 0

taken_frames : (bit_test clean.kernel.phys 4 ≡ false) × (bit_test clean.kernel.phys 5 ≡ false)
unfolding xtok_alloc_ram seal_frames phys_alloc_frames taken scan test test_byte seal_ram_locked
    claim_slot claim_from xtok_init seal_claimed seal_slot pack_token take_run for_up clear
    clear_byte
taken_frames = (refl, refl)

clean-IsTables : IsTables levels clean.kernel
clean-IsTables = record {
  used = λ f n. elim (Bool-cases (f == 5)) [
    | inl e ↦ let same : f ≡ 5 = ground arith in rw same (taken_frames.1)
    | inr e ↦ absurd (n (rw e refl))
  ];
  points = λ t x l a b c d p. absurd (cc);
}

xas_map-MapPages_example :
    MapPages levels other_space 0x8000000000 0x100000001 1 clean
      (xas_map (some other_space) 0x8000000000 0x100000001 1 clean)
xas_map-MapPages_example =
    xas_map-MapPages levels other_space 0x8000000000 0x100000001 1 clean clean-IsCoherent
      (omega arith) clean-IsTables refl refl

xas_create-Shared_example : Shared clean (xas_create 5 clean)
xas_create-Shared_example = xas_create-Shared 5 clean clean-IsCoherent refl taken_frames.0
