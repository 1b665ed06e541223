-- ===== src/Sys/Coherent.antt =====
-- The resource syscalls of sys.c, `xas_create` of paging.c and the ledger's and the mapping records'
-- agreement.
use xasmos.Base.{ℕ, ◌%◌, ◌^◌, ◌<◌, true, Bool, ltb, arith, ◌==◌, if_both, Bool-cases, inl, inr}
use xasmos.Physical.State.{frames_per_huge}
use xasmos.Ledger.Table.{invalid}
use xasmos.Ledger.Ops.{
  Kernel, Release, xtok_alloc_ram, xtok_alloc_ram_huge, xtok_release_owned, release_impl,
}
use xasmos.Ledger.Alloc.{xtok_alloc_ram-IsSound, xtok_alloc_ram_huge-IsSound}
use xasmos.Ledger.Grant.{xtok_alloc_ram-Outcome, xtok_alloc_ram_huge-Outcome}
use xasmos.Ledger.Release.{release_cases, release_impl-IsSound}
use xasmos.Paging.Spaces.{XAspace, Vm}
use xasmos.Paging.Pins.{IsPinned, Granted-IsPinned, wipe_slot-IsPinned}
use xasmos.Paging.Laws.{xas_map-Outcome}
use xasmos.Paging.Coherent.{IsCoherent}
use xasmos.Paging.Drops.{xas_unmap-Outcome}
use xasmos.Sys.Calls.{Quotas, Status, Reply, sys_alloc, sys_free}
use xasmos.Sys.Laws.{sys_alloc_cases}
use xasmos.Sys.Spaces.{
  Frame, Answer, xsys_alloc, xsys_map, xsys_unmap, xsys_free, xsys_info, sys_map, sys_unmap,
  xsys_resource,
}

-- The kernel's state changes under the same records.
abbrev pub with_kernel : Vm → Kernel → Vm
with_kernel v k = record v { kernel = k }

pub xtok_alloc_ram-IsCoherent :
    (owner n rights : ℕ) (v : Vm)
    → IsCoherent v
    → IsCoherent (with_kernel v (xtok_alloc_ram owner n rights v.kernel).1)
xtok_alloc_ram-IsCoherent owner n rights v c =
    let k = v.kernel in
    let (tok, k') = xtok_alloc_ram owner n rights k in
    let out = xtok_alloc_ram-Outcome owner n rights k c.sound in
    record {
      sound = xtok_alloc_ram-IsSound owner n rights k c.sound;
      pinned = elim (Bool-cases (tok == invalid)) [
        | inl e ↦ rw ((out.1 (ground arith)).ledger) c.pinned
        | inr e ↦
            Granted-IsPinned owner n rights tok k k' v.maps c.sound.ledger (out.0 (ground arith))
              c.pinned
      ];
    }

pub xtok_alloc_ram_huge-IsCoherent :
    (owner rights : ℕ) (v : Vm)
    → IsCoherent v
    → IsCoherent (with_kernel v (xtok_alloc_ram_huge owner rights v.kernel).1)
xtok_alloc_ram_huge-IsCoherent owner rights v c =
    let k = v.kernel in
    let (tok, k') = xtok_alloc_ram_huge owner rights k in
    let out = xtok_alloc_ram_huge-Outcome owner rights k c.sound in
    record {
      sound = xtok_alloc_ram_huge-IsSound owner rights k c.sound;
      pinned = elim (Bool-cases (tok == invalid)) [
        | inl e ↦ rw ((out.1 (ground arith)).ledger) c.pinned
        | inr e ↦
            Granted-IsPinned owner frames_per_huge rights tok k k' v.maps c.sound.ledger
              (out.0 (ground arith)) c.pinned
      ];
    }

pub release_impl-IsCoherent :
    (tok : ℕ) (check_right check_owner : Bool) (owner : ℕ) (v : Vm)
    → IsCoherent v
    → IsCoherent (with_kernel v (release_impl tok check_right check_owner owner v.kernel).1)
release_impl-IsCoherent tok cr co owner v c = record {
  sound = release_impl-IsSound tok cr co owner v.kernel c.sound;
  pinned =
      release_cases (λ (r : Release × Kernel). IsPinned r.1.ledger v.maps) tok cr co owner v.kernel
        (λ _ _. c.pinned) (λ s _ _ _ z. wipe_slot-IsPinned s v.kernel.ledger v.maps z c.pinned);
}

sys_alloc-IsCoherent :
    (owner n rights : ℕ) (q : Quotas) (v : Vm)
    → IsCoherent v
    → IsCoherent (with_kernel v (sys_alloc owner n rights q v.kernel).1)
sys_alloc-IsCoherent owner n rights q v c =
    let k = (xtok_alloc_ram-IsCoherent owner n (rights % 2 ^ 32) v c) in
    sys_alloc_cases (λ (r : Reply × Kernel). IsCoherent (with_kernel v r.1)) owner n rights q
      v.kernel (λ s _. c) (λ _. k) (λ _ _ _ _ _. k)

sys_free-IsCoherent :
    (owner tok : ℕ) (v : Vm)
    → IsCoherent v
    → IsCoherent (with_kernel v (sys_free owner tok v.kernel).1)
unfolding sys_free xtok_release_owned
sys_free-IsCoherent owner tok v c = release_impl-IsCoherent tok true true owner v c

sys_map-IsCoherent :
    (space : XAspace) (f : Frame) (v : Vm)
    → IsCoherent v
    → f.rdi < 2 ^ 64
    → IsCoherent (sys_map space f v).1
unfolding sys_map
sys_map-IsCoherent space f v c word =
    if_both (λ (r : Status × Vm). IsCoherent r.1) (ltb 0xFFFFFFFF f.rdx) _ _ (λ _. c)
      (λ _. (xas_map-Outcome space f.rsi f.rdi f.rdx v c word).0)

sys_unmap-IsCoherent :
    (space : XAspace) (f : Frame) (v : Vm) → IsCoherent v → IsCoherent (sys_unmap space f v).1
unfolding sys_unmap
sys_unmap-IsCoherent space f v c = (xas_unmap-Outcome space f.rdi v c).0

-- From a coherent state and for a 64-bit rdi, every resource syscall leaves a coherent state,
-- whatever its number, its arguments and its result.
pub xsys_resource-IsCoherent :
    (space : XAspace) (f : Frame) (q : Quotas) (v : Vm)
    → IsCoherent v
    → f.rdi < 2 ^ 64
    → IsCoherent (xsys_resource space f q v).2
unfolding xsys_resource
xsys_resource-IsCoherent space f q v c word =
    let P = λ (r : Answer × ℕ × Vm). IsCoherent r.2 in
    if_both P (f.rax == xsys_alloc) _ _ (λ _. sys_alloc-IsCoherent space.owner_id f.rdi f.rsi q v c)
      (λ _.
        if_both P (f.rax == xsys_map) _ _ (λ _. sys_map-IsCoherent space f v c word)
          (λ _.
            if_both P (f.rax == xsys_unmap) _ _ (λ _. sys_unmap-IsCoherent space f v c)
              (λ _.
                if_both P (f.rax == xsys_free) _ _
                  (λ _. sys_free-IsCoherent space.owner_id f.rdi v c)
                  (λ _. if_both P (f.rax == xsys_info) _ _ (λ _. c) (λ _. c)))))
