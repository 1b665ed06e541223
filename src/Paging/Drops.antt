-- ===== src/Paging/Drops.antt =====
-- `drop_record` and `xas_unmap` of paging.c.
use xasmos.Base.{
  ℕ, zero, suc, ◌+◌, ◌-◌, ◌≤◌, ◌<◌, ◌≡◌, ◌≢◌, ◌↔◌, refl, Bool, true, false, not, ◌&&◌, none, some,
  arith, ◌==◌, if_both, update, Bool-cases, Option-cases, inl, inr,
}
use xasmos.Bitmap.{weigh}
use xasmos.Ledger.Table.{slot_of}
use xasmos.Ledger.Ops.{set_map_count, xtok_map_release}
use xasmos.Ledger.Inv.{lookup_live-some}
use xasmos.Ledger.Pin.{set_map_count-IsSound}
use xasmos.Paging.Tables.{Xas, ok, unmap_pages}
use xasmos.Paging.Spaces.{
  MapRec, XAspace, Vm, max_maps, drop_record, find_record, unmap_found, xas_unmap,
}
use xasmos.Paging.Cleared.{Cleared, unmap_pages-Cleared, sparser-unmapped}
use xasmos.Paging.Quiet.{unmap_pages-IsQuiet}
use xasmos.Paging.Pins.{holds, IsPinned-update, one_pin, map_release-live}
use xasmos.Paging.Repin.{IsRepinned, set_map_count-IsRepinned}
use xasmos.Paging.Coherent.{IsCoherent}

-- The removal of a live mapping.
pub record Dropped (i : ℕ) (v v' : Vm) : Type 0 where
  pub coherent : IsCoherent v'
  pub pinned : 1 ≤ (v.kernel.ledger.table (slot_of (v.maps i).tok)).map_count
  pub counted :
      let s = slot_of (v.maps i).tok in
      v'.kernel.ledger ≡ set_map_count s ((v.kernel.ledger.table s).map_count - 1) v.kernel.ledger
  pub records : v'.maps ≡ update v.maps i (record (v.maps i) { live = false })
  pub cleared : let r = v.maps i in Cleared r.as_pml4 r.virt r.pages v.kernel v'.kernel

pub drop_record-Dropped :
    (i : ℕ) (v : Vm)
    → IsCoherent v
    → i < max_maps
    → (v.maps i).live ≡ true
    → Dropped i v (drop_record i v)
unfolding drop_record weigh
drop_record-Dropped i v c inside live =
    let r = v.maps i in
    let l = v.kernel.ledger in
    let s = slot_of r.tok in
    let t = c.pinned.mapped i inside live in
    let here : holds r s ≡ true = ground arith in
    let some_pin : 1 ≤ (l.table s).map_count =
      omega (arith, one_pin v.maps i s inside here, c.pinned.exact s) in
    let q = unmap_pages-IsQuiet r.as_pml4 r.virt r.pages v.kernel in
    let counted : xtok_map_release r.tok (unmap_pages r.as_pml4 r.virt r.pages v.kernel).ledger
        ≡ set_map_count s ((l.table s).map_count - 1) l =
      rw q.ledger (map_release-live r.tok s l t.found some_pin) in
    let fewer =
      set_map_count-IsSound s ((l.table s).map_count - 1) l v.kernel.phys
        (omega (arith, (c.sound.ledger.entry s).pins)) (lookup_live-some r.tok l t.found).2
        c.sound in
    record {
      coherent = record {
        sound = rw counted (q.sound _ fewer);
        pinned = rw counted (
            IsPinned-update s ((l.table s).map_count - 1) i (record r { live = false }) l v.maps
              inside (ground (arith, here, some_pin)) (λ t h. ground (arith, h)) (λ h. absurd (cc))
              c.pinned);
      };
      pinned = some_pin;
      counted = counted;
      records = refl;
      cleared =
          let u = unmap_pages-Cleared r.as_pml4 r.virt r.pages v.kernel in
          record {
            sparser = u.sparser;
            unmapped = λ j b.
                sparser-unmapped r.as_pml4 _ (unmap_pages r.as_pml4 r.virt r.pages v.kernel)
                  (drop_record i v).kernel (λ w. inl refl) (u.unmapped j b);
          };
    }

pub Dropped-IsRepinned :
    (i : ℕ) (v v' : Vm) → Dropped i v v' → IsRepinned v.kernel.ledger v'.kernel.ledger
Dropped-IsRepinned i v v' d =
    let s = slot_of (v.maps i).tok in
    rw d.counted
      (set_map_count-IsRepinned s ((v.kernel.ledger.table s).map_count - 1) v.kernel.ledger)

-- Whether a record is a live one of the space at `virt`.
abbrev pub is_at : ℕ → ℕ → MapRec → Bool
is_at pml4 virt r = r.live && (r.as_pml4 == pml4) && (r.virt == virt)

pub record Found (pml4 virt i : ℕ) (maps : ℕ → MapRec) : Type 0 where
  pub inside : i < max_maps
  pub live : (maps i).live ≡ true
  pub space : (maps i).as_pml4 ≡ pml4
  pub place : (maps i).virt ≡ virt

find_record-Found :
    (n i pml4 virt j : ℕ) (maps : ℕ → MapRec)
    → i + n ≡ max_maps
    → find_record n i pml4 virt maps ≡ some j
    → Found pml4 virt j maps
unfolding find_record
find_record-Found zero i pml4 virt j maps e h = absurd (cc)
find_record-Found (suc n) i pml4 virt j maps e h = elim (Bool-cases (is_at pml4 virt (maps i))) [
  | inl t ↦
      let here : i ≡ j = ground (arith, t, h) in
      rw (← here) (record {
        inside = omega arith;
        live = ground arith;
        space = ground arith;
        place = ground arith;
      })
  | inr t ↦ find_record-Found n (i + 1) pml4 virt j maps (omega arith) (ground (arith, t, h))
]

find_record-none :
    (n i pml4 virt j : ℕ) (maps : ℕ → MapRec)
    → find_record n i pml4 virt maps ≡ none
    → i ≤ j
    → j < i + n
    → is_at pml4 virt (maps j) ≡ false
unfolding find_record
find_record-none zero i pml4 virt j maps h a b = absurd (omega arith)
find_record-none (suc n) i pml4 virt j maps h a b = elim (Bool-cases (i == j)) [
  | inl e ↦ let e' : i ≡ j = ground arith in rw (← e') (ground arith)
  | inr e ↦ find_record-none n (i + 1) pml4 virt j maps (ground arith) (ground arith) (omega arith)
]

-- What `xas_unmap` does.
abbrev pub UnmapOutcome : XAspace → ℕ → Vm → Xas × Vm → Type 0
UnmapOutcome space virt v (r, v') =
    IsCoherent v'
    × (r ≡ ok → (i : ℕ) × Found space.pml4_phys virt i v.maps × Dropped i v v')
    × (r ≢ ok → v' ≡ v)
    × (space.live ≡ true
        → (r ≢ ok) ↔ ((i : ℕ) → i < max_maps → is_at space.pml4_phys virt (v.maps i) ≡ false))

-- From a coherent state `xas_unmap` leaves a coherent state. If it succeeds, it has removed one
-- record of the space at the address and one mapping of its token, and changed nothing else that
-- the ledger or the records say; a walk of the space's page tables finds no present entry for any
-- page of the record, and no word of memory has changed but to become 0. If it fails, nothing has changed. On a live space it fails exactly
-- if the space has no live record at the address.
pub xas_unmap-Outcome :
    (space : XAspace) (virt : ℕ) (v : Vm)
    → IsCoherent v
    → UnmapOutcome space virt v (xas_unmap (some space) virt v)
unfolding xas_unmap unmap_found
xas_unmap-Outcome space virt v c =
    let pml4 = space.pml4_phys in
    if_both (UnmapOutcome space virt v) (not space.live) _ _
      (λ a. (c, λ h. absurd (cc), λ _. refl, λ b. absurd (ground arith)))
      (λ a. elim (Option-cases (find_record max_maps 0 pml4 virt v.maps)) [
        | inl e ↦ rw e (
          c,
          λ h. absurd (cc),
          λ _. refl,
          λ _. (
            λ _ i h. find_record-none max_maps 0 pml4 virt i v.maps e (omega arith) h,
            λ _ h. cc,
          ),
        )
        | inr (i, e) ↦
            let f = find_record-Found max_maps 0 pml4 virt i v.maps refl e in
            let d = drop_record-Dropped i v c f.inside f.live in
            rw e (
              d.coherent,
              λ _. (i, f, d),
              λ h. absurd (h refl),
              λ _. (
                λ h. absurd (h refl),
                λ h. absurd (ground (arith, h i f.inside, f.live, f.space, f.place)),
              ),
            )
      ])
