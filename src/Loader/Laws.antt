-- ===== src/Loader/Laws.antt =====
-- What `xload_exb` of source/core/exb/load.c promises on the kernel.
use xasmos.Base.{
  ℕ, ◌/◌, ◌-◌, ◌<◌, ◌≡◌, ◌≢◌, refl, ap, true, false, none, some, [], arith, ◌==◌, if_both,
  Bool-cases, inl, inr, Option,
}
use xasmos.Ledger.Table.{owner_kernel}
use xasmos.Paging.Spaces.{XAspace, Vm, max_maps}
use xasmos.Paging.Coherent.{IsCoherent}
use xasmos.Sys.Calls.{Quotas}
use xasmos.Exb.Image.{Image, ExbInfo, Error, page}
use xasmos.Exb.Parse.{exb_parse}
use xasmos.Exb.Safe.{IsLoadable, exb_parse_safe}
use xasmos.Loader.Load.{
  Load, Loading, failed, going, Txn, XLoadResult, load_stack, load_result, load_parsed, xload_exb,
  stack_top,
}
use xasmos.Loader.Amd64.{amd64}
use xasmos.Loader.Held.{has, mine, same_entry, Held-start}
use xasmos.Loader.Undo.{Undone}
use xasmos.Loader.Unmap.{Unused}
use xasmos.Loader.Place.{Shown, Going, Placed, place-Placed, no_fill-Fills}
use xasmos.Loader.Segments.{Progress, Progressed, load_segments-Progressed}

-- What a successful load has added: every segment and the stack are mapped in the space, and no
-- token and no mapping from before has changed.
pub record Loaded (space : XAspace) (info : ExbInfo) (v w : Vm) : Type 0 where
  pub coherent : IsCoherent w
  pub segments : (j : ℕ) → j < info.seg_count → Shown space (info.seg j).vaddr (info.seg j).pages w
  pub stack : Shown space (stack_top - info.stack_bytes) (info.stack_bytes / page) w
  pub tokens :
      (s : ℕ)
      → (v.kernel.ledger.table s).live ≡ true
      → w.kernel.ledger.table s ≡ v.kernel.ledger.table s
  pub old : (j : ℕ) → j < max_maps → (v.maps j).live ≡ true → w.maps j ≡ v.maps j

abbrev Stacked : XAspace → ExbInfo → Vm → Loading Vm → Type 0
Stacked space info v (failed e u) = (e ≢ Load.ok) × Undone v u
Stacked space info v (going t u) = Loaded space info v u

Going-Loaded :
    (space : XAspace) (info : ExbInfo) (v w u : Vm) (t t' : Txn)
    → Progress space info v info.seg_count t w
    → Going space (stack_top - info.stack_bytes) (info.stack_bytes / page) t t' v w u
    → Loaded space info v u
Going-Loaded space info v w u t t' p g = record {
  coherent = g.held.coherent;
  segments = λ j h. g.still (info.seg j).vaddr (info.seg j).pages (p.shown j h);
  stack = g.shown;
  tokens = λ s live. elim (Bool-cases (mine t'.tok s)) [
    | inl e ↦ absurd (ground (arith, g.held.fresh s e, live))
    | inr e ↦ (g.held.kept s e).rest live
  ];
  old = g.held.old;
}

load_stack-Stacked :
    (q : Quotas) (space : XAspace) (owner size : ℕ) (info : ExbInfo) (v : Vm) (r : Loading Vm)
    → IsCoherent v
    → space.live ≡ true
    → Unused space.pml4_phys v
    → IsLoadable size info
    → Progressed space info v info.seg_count r
    → Stacked space info v (load_stack (amd64 q) space owner info r)
unfolding load_stack
load_stack-Stacked q space owner size info v (failed e u) c live unused l p = p
load_stack-Stacked q space owner size info v (going t w) c live unused l p =
    let base = stack_top - info.stack_bytes in
    let unlisted : has t.va base ≡ false = elim (Bool-cases (has t.va base)) [
      | inl h ↦
          let (j, below, at) = p.from base h in
          absurd (omega (arith, (l.segments.each j below).below, l.stack.most, at))
      | inr h ↦ h
    ] in
    go _ (
      place-Placed q space owner base (info.stack_bytes / page) _ _ (λ _ s. s) t v w c live unused
        no_fill-Fills unlisted p.held)
  where
    go :
        (r : Loading Vm)
        → Placed space (stack_top - info.stack_bytes) (info.stack_bytes / page) t v w r
        → Stacked space info v r
    go (failed e u) g = g
    go (going t' u) g = Going-Loaded space info v w u t t' p g

-- A load ends in one of two ways.
abbrev pub LoadOutcome : XAspace → ExbInfo → Vm → Load × Option XLoadResult × Vm → Type 0
LoadOutcome space info v (r, out, w) =
    (r ≡ Load.ok
      → Loaded space info v w
        × (out
            ≡ some (record {
              entry = info.entry;
              stack_top = 0x7FFFFFFFF000;
              stack_bytes = info.stack_bytes;
              tokens_granted = info.extra_tokens;
            })))
    × (r ≢ Load.ok → Undone v w × (out ≡ none))

untouched : (v : Vm) → IsCoherent v → Undone v v
untouched v c = record {
  coherent = c;
  entries = λ s. same_entry (v.kernel.ledger.table s);
  same = λ j _. refl;
  old = λ j _ _. refl;
}

load_result-LoadOutcome :
    (space : XAspace) (info : ExbInfo) (v : Vm) (r : Loading Vm) (q : Quotas)
    → Stacked space info v r
    → LoadOutcome space info v (load_result (amd64 q) info r)
unfolding load_result
load_result-LoadOutcome space info v (failed e u) q p = (λ h. absurd (p.0 h), λ _. (p.1, refl))
load_result-LoadOutcome space info v (going t u) q p = (λ _. (p, refl), λ h. absurd (h refl))

load_parsed-LoadOutcome :
    (q : Quotas) (space : XAspace) (owner size : ℕ) (img : Image) (parsed : Option Error × ExbInfo)
    (v : Vm)
    → IsCoherent v
    → space.live ≡ true
    → Unused space.pml4_phys v
    → (parsed.0 ≡ none → IsLoadable size parsed.1)
    → LoadOutcome space parsed.1 v (load_parsed (amd64 q) space owner img parsed v)
unfolding load_parsed has
load_parsed-LoadOutcome q space owner size img (some e, info) v c live unused l =
    (λ h. absurd (cc), λ _. (untouched v c, refl))
load_parsed-LoadOutcome q space owner size img (none, info) v c live unused l =
    let segments =
      load_segments-Progressed q space owner size img info v v info.seg_count 0 info.seg_count
        (record { tok = []; va = [] }) c live unused (l refl) (omega arith) (omega arith)
        (record {
          held = Held-start space.pml4_phys v c;
          from = λ x h. absurd (cc);
          shown = λ j h. absurd (omega arith);
        }) in
    if_both (LoadOutcome space info v) _ _ _
      (λ _.
        load_result-LoadOutcome space info v _ q
          (load_stack-Stacked q space owner size info v _ c live unused (l refl) segments))
      (λ _. (λ h. absurd (cc), λ _. (untouched v c, refl)))

-- From a coherent state and for a live space without mappings, `xload_exb` is all or nothing. If it
-- succeeds, every segment of the image and the stack have a live mapping record in the space, with
-- their pages; the tokens and mapping records from before are as they were, and the result names the
-- entry point and the stack of the image. If it fails, whatever the error, every live token and every
-- live mapping record is one from before, unchanged, and nothing is written to the result.
pub xload_exb-LoadOutcome :
    (q : Quotas) (space : XAspace) (owner size : ℕ) (img : Image) (before : ExbInfo) (v : Vm)
    → IsCoherent v
    → space.live ≡ true
    → Unused space.pml4_phys v
    → LoadOutcome space
        (exb_parse (some img) size before).1
        v
        (xload_exb (amd64 q) (some space) owner (some img) size before v)
unfolding xload_exb
xload_exb-LoadOutcome q space owner size img before v c live unused =
    let P = LoadOutcome space (exb_parse (some img) size before).1 v in
    let refused : P (Load.arg, none, v) = (λ h. absurd (cc), λ _. (untouched v c, refl)) in
    if_both P (size == 0) _ _ (λ _. refused)
      (λ _.
        if_both P (owner == owner_kernel) _ _ (λ _. refused)
          (λ _.
            load_parsed-LoadOutcome q space owner size img (exb_parse (some img) size before) v c
              live unused
              (λ e.
                (exb_parse_safe img size before (exb_parse (some img) size before).1
                  (ap (λ o. (o, (exb_parse (some img) size before).1)) e)).1)))
