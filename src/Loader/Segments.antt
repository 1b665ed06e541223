-- ===== src/Loader/Segments.antt =====
-- The loop of source/core/exb/load.c over the segments of an image.
use xasmos.Base.{
  ℕ, zero, suc, ◌+◌, ◌<◌, ◌≤◌, ◌≡◌, ◌≢◌, true, false, arith, ◌==◌, Bool-cases, inl, inr,
}
use xasmos.Paging.Spaces.{XAspace, Vm}
use xasmos.Paging.Coherent.{IsCoherent}
use xasmos.Sys.Calls.{Quotas}
use xasmos.Exb.Image.{Image, ExbInfo, overlap}
use xasmos.Exb.Safe.{IsLoadable}
use xasmos.Loader.Load.{Load, Loading, failed, going, Txn, load_segment, load_segments, copy_file}
use xasmos.Loader.Amd64.{amd64}
use xasmos.Loader.Held.{has, Held}
use xasmos.Loader.Undo.{Undone}
use xasmos.Loader.Unmap.{Unused}
use xasmos.Loader.Place.{Shown, Going, Placed, place-Placed, copy_file-Fills}

-- Two segments of an accepted image start at different addresses.
starts_apart :
    (size : ℕ) (info : ExbInfo) (i j : ℕ)
    → IsLoadable size info
    → i < j
    → j < info.seg_count
    → (info.seg i).vaddr ≢ (info.seg j).vaddr
unfolding overlap
starts_apart size info i j l h q e =
    let a = l.segments.each i (omega arith) in
    let b = l.segments.each j q in
    absurd (
      ground (
        arith,
        l.segments.apart i j h q,
        a.end_exact,
        b.end_exact,
        a.occupied,
        a.covered,
        b.occupied,
        b.covered,
        e,
      ))

-- The first `i` segments are mapped, and nothing else is.
pub record Progress (space : XAspace) (info : ExbInfo) (v : Vm) (i : ℕ) (t : Txn) (w : Vm)
    : Type 0 where
  pub held : Held space.pml4_phys t.tok t.va v w
  pub from : (x : ℕ) → has t.va x ≡ true → (j : ℕ) × (j < i) × ((info.seg j).vaddr ≡ x)
  pub shown : (j : ℕ) → j < i → Shown space (info.seg j).vaddr (info.seg j).pages w

abbrev pub Progressed : XAspace → ExbInfo → Vm → ℕ → Loading Vm → Type 0
Progressed space info v i (failed e u) = (e ≢ Load.ok) × Undone v u
Progressed space info v i (going t u) = Progress space info v i t u

Going-Progress :
    (space : XAspace) (info : ExbInfo) (v w u : Vm) (i : ℕ) (t t' : Txn)
    → Progress space info v i t w
    → Going space (info.seg i).vaddr (info.seg i).pages t t' v w u
    → Progress space info v (i + 1) t' u
unfolding has
Going-Progress space info v w u i t t' p g = record {
  held = g.held;
  from = λ x h. elim (Bool-cases ((info.seg i).vaddr == x)) [
    | inl e ↦ (i, omega arith, ground arith)
    | inr e ↦
        let rest : has t.va x ≡ true = ground (arith, rw g.listed at h, e) in
        let (j, below, at) = p.from x rest in (j, omega arith, at)
  ];
  shown = λ j h. elim (Bool-cases (j == i)) [
    | inl e ↦ let e' : j ≡ i = ground arith in rw e' g.shown
    | inr e ↦
        let below : j < i = ground arith in
        g.still (info.seg j).vaddr (info.seg j).pages (p.shown j below)
  ];
}

pub load_segments-Progressed :
    (q : Quotas) (space : XAspace) (owner size : ℕ) (img : Image) (info : ExbInfo) (v w : Vm)
    (n i m : ℕ) (t : Txn)
    → IsCoherent v
    → space.live ≡ true
    → Unused space.pml4_phys v
    → IsLoadable size info
    → i + n ≡ m
    → m ≤ info.seg_count
    → Progress space info v i t w
    → Progressed space info v m (load_segments (amd64 q) n i space owner img info.seg t w)
unfolding load_segments load_segment
load_segments-Progressed q space owner size img info v w zero i m t c live unused l e few p =
    let e' : m ≡ i = omega arith in rw e' p
load_segments-Progressed q space owner size img info v w (suc n) i m t c live unused l e few p =
    go (load_segment (amd64 q) space owner img (info.seg i) t w)
      (unfold load_segment in
        place-Placed q space owner (info.seg i).vaddr (info.seg i).pages _ _
          (copy_file (amd64 q) img (info.seg i)) t v w c live unused
          (copy_file-Fills q img (info.seg i)) unlisted p.held)
      (λ t' u.
        load_segments-Progressed q space owner size img info v u n (i + 1) m t' c live unused l
          (omega arith) few)
  where
    unlisted : has t.va (info.seg i).vaddr ≡ false
    unlisted = elim (Bool-cases (has t.va (info.seg i).vaddr)) [
      | inl h ↦
          let (j, below, at) = p.from (info.seg i).vaddr h in
          absurd (starts_apart size info j i l below (omega arith) at)
      | inr h ↦ h
    ]

    go :
        (r : Loading Vm)
        → Placed space (info.seg i).vaddr (info.seg i).pages t v w r
        → ((t' : Txn) (u : Vm)
            → Progress space info v (i + 1) t' u
            → Progressed space info v m
                (load_segments (amd64 q) n (i + 1) space owner img info.seg t' u))
        → Progressed space info v m (elim r [
          | failed e s ↦ failed e s
          | going t' s ↦ load_segments (amd64 q) n (i + 1) space owner img info.seg t' s
        ])
    go (failed e u) g later = g
    go (going t' u) g later = later t' u (Going-Progress space info v w u i t t' p g)
