-- ===== src/Sys/Reach.antt =====
-- The states that the kernel reaches from boot by creating spaces, serving resource syscalls,
-- mapping, revoking, releasing and reclaiming tokens: the calls of sys.c, paging.c and token_ledger.c
-- in any order. The teardown of a space (`xas_destroy`, and with it `xproc_reap`) is not among them:
-- it frees the page tables that memory names, whose frames the ledger does not know.
use xasmos.Base.{
  some, ℕ, ◌^◌, ◌<◌, ◌≡◌, ◌≢◌, ◌∙◌, sym, ap, Bool, true, false, ◌&&◌, arith, ◌==◌, Bool-cases, inl,
  inr, sum_below-eq-zero,
}
use xasmos.Bitmap.{weigh}
use xasmos.Physical.State.{bit_test}
use xasmos.Physical.Range.{IsValid}
use xasmos.Ledger.Table.{lookup_live, slot_of, xtok_init}
use xasmos.Ledger.Ops.{
  xtok_alloc_ram, xtok_alloc_ram_huge, xtok_release, xtok_release_owned, xtok_reclaim,
}
use xasmos.Ledger.Sound.{covers, xtok_init-IsSound}
use xasmos.Paging.Spaces.{XAspace, Vm, max_maps, xas_create, xas_map, xas_unmap, xas_revoke_token}
use xasmos.Paging.Pins.{pins_of}
use xasmos.Paging.Coherent.{IsCoherent}
use xasmos.Paging.Laws.{xas_map-Outcome}
use xasmos.Paging.Drops.{xas_unmap-Outcome}
use xasmos.Paging.Revoke.{revoke-Revoking}
use xasmos.Paging.Create.{xas_create-Outcome}
use xasmos.Sys.Calls.{Quotas}
use xasmos.Sys.Spaces.{Frame, xsys_resource}
use xasmos.Sys.Coherent.{
  with_kernel, xtok_alloc_ram-IsCoherent, xtok_alloc_ram_huge-IsCoherent, release_impl-IsCoherent,
  xsys_resource-IsCoherent,
}

-- One call. The registers of a trapped program hold whatever it likes.
pub data Step (v : Vm) : Vm → Type 0 where
  create : (owner : ℕ) → Step v (xas_create owner v).2
  syscall :
      (space : XAspace) (f : Frame) (q : Quotas)
      → f.rdi < 2 ^ 64
      → Step v (xsys_resource space f q v).2
  alloc : (owner n rights : ℕ) → Step v (with_kernel v (xtok_alloc_ram owner n rights v.kernel).1)
  revoke : (tok : ℕ) → Step v (xas_revoke_token tok v).1
  alloc_huge :
      (owner rights : ℕ) → Step v (with_kernel v (xtok_alloc_ram_huge owner rights v.kernel).1)
  map :
      (space : XAspace) (virt tok perms : ℕ)
      → tok < 2 ^ 64
      → Step v (xas_map (some space) virt tok perms v).1
  unmap : (space : XAspace) (virt : ℕ) → Step v (xas_unmap (some space) virt v).1
  release : (tok : ℕ) → Step v (with_kernel v (xtok_release tok v.kernel).1)
  release_owned : (tok owner : ℕ) → Step v (with_kernel v (xtok_release_owned tok owner v.kernel).1)
  reclaim : (tok : ℕ) → Step v (with_kernel v (xtok_reclaim tok v.kernel).1)

-- The start: no token and no mapping.
pub record Booted (v : Vm) : Type 0 where
  pub ledger : v.kernel.ledger ≡ xtok_init
  pub valid : IsValid v.kernel.phys
  pub reserved : bit_test v.kernel.phys 0 ≡ false
  pub empty : (i : ℕ) → (v.maps i).live ≡ false

pub data Reach (v : Vm) : Vm → Type 0 where
  start : Reach v v
  later : {w u : Vm} → Reach v w → Step w u → Reach v u

Step-IsCoherent : {v w : Vm} → Step v w → IsCoherent v → IsCoherent w
Step-IsCoherent {v} (create owner) c = (xas_create-Outcome owner v c).0
Step-IsCoherent {v} (syscall space f q word) c = xsys_resource-IsCoherent space f q v c word
Step-IsCoherent {v} (alloc owner n rights) c = xtok_alloc_ram-IsCoherent owner n rights v c
Step-IsCoherent {v} (revoke tok) c = (revoke-Revoking tok v c).coherent
Step-IsCoherent {v} (alloc_huge owner rights) c = xtok_alloc_ram_huge-IsCoherent owner rights v c
Step-IsCoherent {v} (map space virt tok perms word) c =
    (xas_map-Outcome space virt tok perms v c word).0
Step-IsCoherent {v} (unmap space virt) c = (xas_unmap-Outcome space virt v c).0
Step-IsCoherent {v} (release tok) c =
    unfold xtok_release in release_impl-IsCoherent tok true false 0 v c
Step-IsCoherent {v} (release_owned tok owner) c =
    unfold xtok_release_owned in release_impl-IsCoherent tok true true owner v c
Step-IsCoherent {v} (reclaim tok) c =
    unfold xtok_reclaim in release_impl-IsCoherent tok false false 0 v c

pub boot-IsCoherent : (v : Vm) → Booted v → IsCoherent v
unfolding pins_of weigh xtok_init
boot-IsCoherent v b = record {
  sound = rw b.ledger (xtok_init-IsSound v.kernel.phys b.valid b.reserved);
  pinned = record {
    exact = λ s. rw b.ledger (
        sym (
          sum_below-eq-zero max_maps _
            (λ i _. ap (λ x. weigh (x && (slot_of (v.maps i).tok == s))) (b.empty i))));
    mapped = λ i _ h. absurd (ground (arith, b.empty i, h));
  };
}

pub later-IsCoherent : {v w : Vm} → IsCoherent v → Reach v w → IsCoherent w
later-IsCoherent c start = c
later-IsCoherent c (later r s) = Step-IsCoherent s (later-IsCoherent c r)

-- From a booted state, with no token and no mapping, any sequence of resource syscalls, `xas_create`,
-- `xas_map`, `xas_unmap`, `xas_revoke_token`, the two allocations of the ledger, `xtok_release`,
-- `xtok_release_owned` and `xtok_reclaim` reaches a coherent state:
-- live tokens hold frames of their own that are used in the bitmap, the map count of every token is
-- the number of live records of it, and every live record names a live token of its owner.
pub Reach-IsCoherent : {v w : Vm} → Booted v → Reach v w → IsCoherent w
Reach-IsCoherent {v} b r = later-IsCoherent (boot-IsCoherent v b) r

-- The frames of a mapping: those of the token that it maps.
abbrev pub maps_frame : Vm → ℕ → ℕ → Bool
maps_frame v i g = covers (v.kernel.ledger.table (slot_of (v.maps i).tok)) g

-- In every state that these calls reach from a coherent one, two live mapping records of different
-- owners name tokens that have no frame in common.
pub owners_apart :
    {v w : Vm} (i j g : ℕ)
    → IsCoherent v
    → Reach v w
    → i < max_maps
    → j < max_maps
    → (w.maps i).live ≡ true
    → (w.maps j).live ≡ true
    → (w.maps i).owner ≢ (w.maps j).owner
    → maps_frame w i g ≡ true
    → maps_frame w j g ≡ false
owners_apart {v} {w} i j g b r hi hj li lj ne covered =
    let c = later-IsCoherent b r in
    let a = c.pinned.mapped i hi li in
    let d = c.pinned.mapped j hj lj in
    elim (Bool-cases (maps_frame w j g)) [
      | inl e ↦
          let same =
            c.sound.backed.apart (slot_of (w.maps i).tok) (slot_of (w.maps j).tok) g covered e in
          let slot : slot_of (w.maps i).tok ≡ slot_of (w.maps j).tok = ground arith in
          absurd (ne (sym a.owner ∙ ap (λ s. (w.kernel.ledger.table s).owner_id) slot ∙ d.owner))
      | inr e ↦ e
    ]

-- In every state that these calls reach from a coherent one, a frame of a live mapping is marked as used,
-- and the token that it belongs to is live.
pub mapped_used :
    {v w : Vm} (i g : ℕ)
    → IsCoherent v
    → Reach v w
    → i < max_maps
    → (w.maps i).live ≡ true
    → maps_frame w i g ≡ true
    → (lookup_live (w.maps i).tok w.kernel.ledger ≡ some (slot_of (w.maps i).tok))
      × (bit_test w.kernel.phys g ≡ false)
mapped_used {v} {w} i g b r h l covered =
    let c = later-IsCoherent b r in
    ((c.pinned.mapped i h l).found, c.sound.backed.used (slot_of (w.maps i).tok) g covered)
