-- ===== src/Loader/Place.antt =====
-- One segment of a load (source/core/exb/load.c) on the kernel: frames, contents and the mapping.
use xasmos.Base.{
  ℕ, ◌+◌, ◌^◌, ◌<◌, ◌≡◌, ◌≢◌, refl, ◌∙◌, sym, ap, true, false, none, some, ◌∷◌, arith, ◌==◌,
  if_both, Bool-cases, inl, inr, Option, for_up_inv, add32,
}
use xasmos.Ledger.Table.{Ledger, slot_of, invalid}
use xasmos.Ledger.Ops.{xtok_alloc_ram}
use xasmos.Ledger.Inv.{lookup_live-some}
use xasmos.Ledger.Grant.{xtok_alloc_ram-Outcome}
use xasmos.Paging.Tables.{Xas}
use xasmos.Paging.Spaces.{MapRec, XAspace, Vm, max_maps, xas_map}
use xasmos.Paging.Coherent.{IsCoherent, Unmoved, Mapped}
use xasmos.Paging.Laws.{xas_map-Outcome}
use xasmos.Sys.Calls.{Quotas}
use xasmos.Sys.Coherent.{with_kernel, xtok_alloc_ram-IsCoherent}
use xasmos.Exb.Image.{Image, ExbSeg, byte_at}
use xasmos.Loader.Load.{Load, Loading, failed, going, Txn, copy_file, map_token, place}
use xasmos.Loader.Amd64.{granted, is_mapped, xlb_alloc, xlb_map, store_byte, amd64, xlb_kernel_ptr}
use xasmos.Loader.Held.{has, Held, Held-ledger, Held-granted}
use xasmos.Loader.Mapping.{Held-Mapped}
use xasmos.Loader.Undo.{Undone, rollback-Undone}
use xasmos.Loader.Unmap.{Unused}

-- A record of a live mapping of `pages` pages at `va`.
pub record Shown (space : XAspace) (va pages : ℕ) (w : Vm) : Type 0 where
  pub index : ℕ
  pub tok : ℕ
  pub inside : index < max_maps
  pub entry : w.maps index ≡ record {
    as_pml4 = space.pml4_phys;
    owner = space.owner_id;
    virt = va;
    tok = tok;
    pages = pages;
    live = true;
  }

Shown-Mapped :
    (space : XAspace) (va pages at tok perms : ℕ) (w u : Vm)
    → Mapped space at tok perms w u
    → Shown space va pages w
    → Shown space va pages u
Shown-Mapped space va pages at tok perms w u m s =
    let live : (w.maps s.index).live ≡ true = ap (λ (r : MapRec). r.live) s.entry in
    let ne : (s.index == m.index) ≡ false = elim (Bool-cases (s.index == m.index)) [
      | inl e ↦
          let e' : s.index ≡ m.index = ground arith in
          absurd (ground (arith, rw e' at live, m.unused))
      | inr e ↦ e
    ] in
    record { index = s.index; tok = s.tok; inside = s.inside; entry = rw (m.records, ne) s.entry }

-- What filling the frames may do: neither the ledger nor the records change.
abbrev pub Fills : (ℕ → Vm → Vm) → Type 0
Fills fill = (tok : ℕ) (w : Vm) → IsCoherent w → Unmoved w (fill tok w) × IsCoherent (fill tok w)

-- What one segment comes to: undone, or mapped.
pub record Going (space : XAspace) (va pages : ℕ) (t t' : Txn) (v w u : Vm) : Type 0 where
  pub held : Held space.pml4_phys t'.tok t'.va v u
  pub listed : t'.va ≡ va ∷ t.va
  pub shown : Shown space va pages u
  pub still : (a n : ℕ) → Shown space a n w → Shown space a n u

abbrev pub Placed : XAspace → ℕ → ℕ → Txn → Vm → Vm → Loading Vm → Type 0
Placed space va pages t v w (failed e u) = (e ≢ Load.ok) × Undone v u
Placed space va pages t v w (going t' u) = Going space va pages t t' v w u

map_token-Placed :
    (q : Quotas) (space : XAspace) (va pages perms tok : ℕ) (fill : ℕ → Vm → Vm) (t : Txn)
    (v w : Vm)
    → IsCoherent v
    → space.live ≡ true
    → Unused space.pml4_phys v
    → Fills fill
    → has t.va va ≡ false
    → tok < 2 ^ 64
    → (w.kernel.ledger.table (slot_of tok)).n_frames ≡ pages
    → Held space.pml4_phys (tok ∷ t.tok) t.va v w
    → Placed space va pages t v w (map_token (amd64 q) space va perms fill t tok w)
unfolding map_token xlb_map
map_token-Placed q space va pages perms tok fill t v w c live unused fills unlisted word size h =
    let (moved, sound) = fills tok w h.coherent in
    let x = fill tok w in
    let filled = Held-ledger space.pml4_phys (tok ∷ t.tok) t.va v w x h moved sound in
    let out = xas_map-Outcome space va tok perms x sound word in
    let (r, u) = xas_map (some space) va tok perms x in
    let P = Placed space va pages t v w in
    if_both P (is_mapped r) _ _
      (λ a.
        let m = out.1 (mapped_ok r a) in
        let here : (m.index == m.index) ≡ true = ground arith in
        let counted : (u.kernel.ledger.table (slot_of tok)).n_frames
            ≡ (x.kernel.ledger.table (slot_of tok)).n_frames =
          rw m.counted (ground arith) in
        let token_of : (u.maps m.index).tok ≡ tok = rw (m.records, here) refl in
        let pages_of : (u.maps m.index).pages ≡ m.pages = rw (m.records, here) refl in
        let full : m.pages ≡ pages =
          sym pages_of
          ∙ sym m.token.pages
          ∙ ap (λ s. (u.kernel.ledger.table (slot_of s)).n_frames) token_of
          ∙ counted
          ∙ ap (λ (l : Ledger). (l.table (slot_of tok)).n_frames) moved.ledger
          ∙ size in
        record {
          held = Held-Mapped space va tok perms t.tok t.va v x u filled m out.0 unlisted;
          listed = refl;
          shown = record {
            index = m.index;
            tok = tok;
            inside = m.inside;
            entry = rw (m.records, here, full) refl;
          };
          still = λ a n s. Shown-Mapped space a n va tok perms x u m (record {
            index = s.index;
            tok = s.tok;
            inside = s.inside;
            entry = rw moved.records s.entry;
          });
        })
      (λ a. (
        λ e. cc,
        rollback-Undone q space (record t { tok = tok ∷ t.tok }) v u c live unused
            (Held-ledger space.pml4_phys (tok ∷ t.tok) t.va v x u filled (out.2 (not_mapped r a))
              out.0),
      ))
  where
    mapped_ok : (r : Xas) → is_mapped r ≡ true → r ≡ Xas.ok
    mapped_ok r h = ground arith

    not_mapped : (r : Xas) → is_mapped r ≡ false → r ≢ Xas.ok
    not_mapped r h e = ground arith

-- The records before an allocation are those after it.
from_granted :
    (space : XAspace) (va pages : ℕ) (t : Txn) (v w x : Vm) (r : Loading Vm)
    → x.maps ≡ w.maps
    → Placed space va pages t v x r
    → Placed space va pages t v w r
from_granted space va pages t v w x (failed e u) same p = p
from_granted space va pages t v w x (going t' u) same p = record {
  held = p.held;
  listed = p.listed;
  shown = p.shown;
  still = λ a n s.
      p.still a n
        (record { index = s.index; tok = s.tok; inside = s.inside; entry = rw same s.entry });
}

granted_cases {ℓ κ} :
    {A : Type ℓ} (P : A → Type κ) (tok : ℕ) (x : A) (f : ℕ → A)
    → (tok ≡ invalid → P x)
    → (tok ≢ invalid → P (f tok))
    → P (elim (granted tok) [ none ↦ x | some t ↦ f t ])
granted_cases P tok x f a b =
    if_both (λ (o : Option ℕ). P (elim o [ none ↦ x | some t ↦ f t ])) (tok == invalid) none
      (some tok) (λ e. a (ground arith)) (λ e. b (ground arith))

pub place-Placed :
    (q : Quotas) (space : XAspace) (owner va pages rights perms : ℕ) (fill : ℕ → Vm → Vm) (t : Txn)
    (v w : Vm)
    → IsCoherent v
    → space.live ≡ true
    → Unused space.pml4_phys v
    → Fills fill
    → has t.va va ≡ false
    → Held space.pml4_phys t.tok t.va v w
    → Placed space va pages t v w (place (amd64 q) space owner va pages rights perms fill t w)
unfolding place xlb_alloc
place-Placed q space owner va pages rights perms fill t v w c live unused fills unlisted h =
    let (tok, k) = xtok_alloc_ram owner pages rights w.kernel in
    let out = xtok_alloc_ram-Outcome owner pages rights w.kernel h.coherent.sound in
    let sound = xtok_alloc_ram-IsCoherent owner pages rights w h.coherent in
    granted_cases (Placed space va pages t v w) tok _
      (λ tok. map_token (amd64 q) space va perms fill t tok (with_kernel w k))
      (λ e.
        let r = out.1 e in
        let kept =
          Held-ledger space.pml4_phys t.tok t.va v w (with_kernel w k) h
            (record { ledger = r.ledger; records = refl }) sound in
        ((λ a. cc), rollback-Undone q space t v (with_kernel w k) c live unused kept))
      (λ e.
        let g = out.0 e in
        let slot : slot_of tok ≡ g.slot = (lookup_live-some tok k.ledger g.found).1 in
        let placed =
          map_token-Placed q space va pages perms tok fill t v (with_kernel w k) c live unused fills
            unlisted g.word (rw slot g.size)
            (Held-granted space.pml4_phys owner pages rights tok t.tok t.va v w k h g sound) in
        from_granted space va pages t v w (with_kernel w k) _ refl placed)

-- Copying the file data writes to memory only.
pub copy_file-Fills :
    (q : Quotas) (img : Image) (seg : ExbSeg) → Fills (copy_file (amd64 q) img seg)
unfolding copy_file store_byte
copy_file-Fills q img seg tok w c =
    let dst = xlb_kernel_ptr tok w in
    for_up_inv (λ _ (u : Vm). Unmoved w u × IsCoherent u)
      (λ i u. store_byte (dst + i) (byte_at img (add32 seg.file_off i)) u) seg.file_size 0
      seg.file_size
      (λ i u _ _ p. (
        record { ledger = p.0.ledger; records = p.0.records },
        record { sound = p.1.sound; pinned = p.1.pinned },
      ))
      w (omega arith) (record { ledger = refl; records = refl }, c)

pub no_fill-Fills : Fills (λ tok w. w)
no_fill-Fills tok w c = (record { ledger = refl; records = refl }, c)
