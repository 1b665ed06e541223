-- ===== src/Paging/Coherent.antt =====
-- The agreement of the ledger with the mapping records of paging.c, and the ways in which `xas_map`
-- can fail.
use xasmos.Base.{
  ◌⊎◌, inl, inr, ℕ, zero, suc, ◌+◌, ◌*◌, ◌≤◌, ◌<◌, ◌≡◌, ◌≢◌, refl, true, false, some, arith, update,
  Bool-cases, bit_and, add64,
}
use xasmos.Physical.State.{frame_size}
use xasmos.Ledger.Table.{Ledger, slot_of}
use xasmos.Ledger.Ops.{Kernel, set_map_count}
use xasmos.Ledger.Sound.{IsSound}
use xasmos.Ledger.Pin.{Pinned}
use xasmos.Paging.Tables.{
  Xas, ok, arg, wx, range, token, owner, rights, busy, nomem, notmapped, map_page, unmap_pages,
}
use xasmos.Paging.Spaces.{
  MapRec, XAspace, Vm, max_maps, user_top, unpin, free_record, rights_needed, map_frames,
}
use xasmos.Paging.Quiet.{IsQuiet, quiet_refl, IsQuiet-trans, map_page-IsQuiet, unmap_pages-IsQuiet}
use xasmos.Paging.Pins.{HasToken, IsPinned, map_release-pinned}

-- The ledger fits the bitmap, and its map counts fit the mapping records.
pub record IsCoherent (v : Vm) : Type 0 where
  pub sound : IsSound v.kernel.ledger v.kernel.phys
  pub pinned : IsPinned v.kernel.ledger v.maps

-- A test for success splits in two.
pub elim_ok {ℓ κ} :
    {A : Type ℓ} (P : A → Type κ) (r : Xas) (x : A) (f : Xas → A)
    → (r ≡ ok → P x)
    → (r ≢ ok → P (f r))
    → P (elim r [ ok ↦ x | e ↦ f e ])
elim_ok P ok x f a b = a refl
elim_ok P arg x f a b = b (λ h. cc)
elim_ok P wx x f a b = b (λ h. cc)
elim_ok P range x f a b = b (λ h. cc)
elim_ok P token x f a b = b (λ h. cc)
elim_ok P owner x f a b = b (λ h. cc)
elim_ok P rights x f a b = b (λ h. cc)
elim_ok P busy x f a b = b (λ h. cc)
elim_ok P nomem x f a b = b (λ h. cc)
elim_ok P notmapped x f a b = b (λ h. cc)

pub map_frames-IsQuiet :
    (n i pml4 virt phys leaf : ℕ) (k : Kernel) → IsQuiet k (map_frames n i pml4 virt phys leaf k).1
unfolding map_frames
map_frames-IsQuiet zero i pml4 virt phys leaf k = quiet_refl k
map_frames-IsQuiet (suc n) i pml4 virt phys leaf k =
    let va = add64 virt (i * frame_size) in
    let pa = add64 phys (i * frame_size) in
    let page = map_page-IsQuiet pml4 va pa leaf k in
    let k' = (map_page pml4 va pa leaf k).1 in
    elim_ok (λ (r : Xas × Kernel). IsQuiet k r.1) (map_page pml4 va pa leaf k).0
      (map_frames n (i + 1) pml4 virt phys leaf k') (λ e. (e, unmap_pages pml4 virt i k'))
      (λ _. IsQuiet-trans k k' _ page (map_frames-IsQuiet n (i + 1) pml4 virt phys leaf k'))
      (λ _. IsQuiet-trans k k' _ page (unmap_pages-IsQuiet pml4 virt i k'))

pub free_record_lem :
    (n i j : ℕ) (maps : ℕ → MapRec)
    → free_record n i maps ≡ some j
    → (i ≤ j) × (j < i + n) × ((maps j).live ≡ false)
unfolding free_record
free_record_lem zero i j maps h = absurd (cc)
free_record_lem (suc n) i j maps h = elim (Bool-cases (maps i).live) [
  | inl e ↦
      let rest = free_record_lem n (i + 1) j maps (ground (arith, e, h)) in
      (omega (arith, rest), omega (arith, rest), rest.2)
  | inr e ↦ let here : i ≡ j = ground (arith, e, h) in (omega arith, omega arith, rw (← here) e)
]

-- What a successful `xas_map` has found and added.
pub record Mapped (space : XAspace) (virt tok perms : ℕ) (v v' : Vm) : Type 0 where
  pub index : ℕ
  pub pages : ℕ
  pub inside : index < max_maps
  pub unused : (v.maps index).live ≡ false
  pub records :
      v'.maps
      ≡ update v.maps index (record {
        as_pml4 = space.pml4_phys;
        owner = space.owner_id;
        virt = virt;
        tok = tok;
        pages = pages;
        live = true;
      })
  pub token : HasToken v'.kernel.ledger (v'.maps index)
  pub rights :
      bit_and (v.kernel.ledger.table (slot_of tok)).rights (rights_needed perms)
      ≡ rights_needed perms
  pub counted :
      v'.kernel.ledger
      ≡ set_map_count
          (slot_of tok)
          ((v.kernel.ledger.table (slot_of tok)).map_count + 1)
          v.kernel.ledger
  pub sized : pages ≢ 0
  pub fits : virt + pages * frame_size ≤ user_top

-- Nothing that the ledger or the records say has changed.
pub record Unmoved (v v' : Vm) : Type 0 where
  pub ledger : v'.kernel.ledger ≡ v.kernel.ledger
  pub records : v'.maps ≡ v.maps

abbrev pub MapOutcome : XAspace → ℕ → ℕ → ℕ → Vm → Xas × Vm → Type 0
MapOutcome space virt tok perms v (r, v') =
    IsCoherent v' × (r ≡ ok → Mapped space virt tok perms v v') × (r ≢ ok → Unmoved v v')

-- A call that gives up after the pin takes it back.
pub undone-Outcome :
    (space : XAspace) (virt tok perms phys n : ℕ) (e : Xas) (v : Vm) (l : Ledger) (k : Kernel)
    → IsCoherent v
    → Pinned tok space.owner_id (rights_needed perms) phys n v.kernel.ledger l
    → IsQuiet (record v.kernel { ledger = l }) k
    → e ≢ ok
    → MapOutcome space virt tok perms v (e, record v { kernel = unpin tok k })
undone-Outcome space virt tok perms phys n e v l k c pin q ne =
    let same : (unpin tok k).ledger ≡ v.kernel.ledger =
      rw (q.ledger, pin.ledger) (map_release-pinned tok pin.slot v.kernel.ledger pin.was_live) in
    (
      record { sound = rw same (q.sound v.kernel.ledger c.sound); pinned = rw same c.pinned },
      λ h. absurd (ne h),
      λ _. record { ledger = same; records = refl },
    )

pub Xas-cases : (r : Xas) → (r ≡ ok) ⊎ (r ≢ ok)
Xas-cases ok = inl refl
Xas-cases arg = inr (λ h. cc)
Xas-cases wx = inr (λ h. cc)
Xas-cases range = inr (λ h. cc)
Xas-cases token = inr (λ h. cc)
Xas-cases owner = inr (λ h. cc)
Xas-cases rights = inr (λ h. cc)
Xas-cases busy = inr (λ h. cc)
Xas-cases nomem = inr (λ h. cc)
Xas-cases notmapped = inr (λ h. cc)
