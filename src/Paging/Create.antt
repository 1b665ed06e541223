-- ===== src/Paging/Create.antt =====
-- `xas_create` of paging.c against the ledger.
use xasmos.Base.{
  not, ◌&&◌, sym, ap, some-injective, ◌+◌, ◌/◌, ◌%◌, ◌≤◌, ◌<◌, false, leb, if◌then◌else◌,
  Bool-cases, inl, inr, ℕ, ◌-◌, ◌≡◌, ◌≢◌, refl, true, Option, none, some, arith, ◌==◌, ◌||◌,
  if_both, for_up_inv,
}
use xasmos.Physical.State.{phys_free_frames, bit_test, frame_size}
use xasmos.Physical.Alloc.{phys_alloc_frames}
use xasmos.Physical.Laws.{Allocated, phys_alloc_frames-Allocated}
use xasmos.Ledger.Table.{owner_kernel}
use xasmos.Ledger.Ops.{Kernel}
use xasmos.Ledger.Alloc.{Supply, frames-Supply}
use xasmos.Ledger.Grant.{zero_loop}
use xasmos.Physical.Range.{in_range}
use xasmos.Physical.Contract.{free-Allocated}
use xasmos.Ledger.Sound.{IsSound, undo-IsSound}
use xasmos.Paging.Tables.{Xas, ok, xpt_ents, entry, set_entry, alloc_zero_table, clear_table}
use xasmos.Paging.Spaces.{
  XAspace, Vm, xas_create, fill_space, share_kernel, kernel_half, user_half_used,
}
use xasmos.Paging.Quiet.{IsQuiet, alloc_zero_table-IsQuiet}
use xasmos.Paging.Coherent.{IsCoherent, Unmoved}

share_kernel-IsQuiet : (kp np : ℕ) (k : Kernel) → IsQuiet k (share_kernel kp np k)
unfolding share_kernel
share_kernel-IsQuiet kp np k =
    for_up_inv (λ _ (k' : Kernel). IsQuiet k k') (λ i k. set_entry np i (entry k kp i) k)
      (xpt_ents - kernel_half) kernel_half xpt_ents
      (λ i k' _ _ q. record { ledger = q.ledger; sound = q.sound })
      (set_entry np 0 (entry k kp 0) k) refl (record { ledger = refl; sound = λ l v. v })

pub alloc_zero_table-Supply :
    (k : Kernel)
    → IsSound k.ledger k.phys
    → Supply 1 k.phys (alloc_zero_table k).0 (alloc_zero_table k).1.phys
unfolding alloc_zero_table
alloc_zero_table-Supply k v =
    let s = frames-Supply 1 k.ledger k.phys v in
    if_both (λ (r : ℕ × Kernel). Supply 1 k.phys r.0 r.1.phys) ((phys_alloc_frames 1 k.phys).0 == 0)
      _ _ (λ e. (λ h. absurd (h refl), λ _. s.1 (ground arith))) (λ _. s)

-- A table that was just allocated can be given back.
freed-IsSound :
    (k : Kernel)
    → IsSound k.ledger k.phys
    → (alloc_zero_table k).0 ≢ 0
    → IsSound k.ledger (phys_free_frames (alloc_zero_table k).0 1 (alloc_zero_table k).1.phys)
unfolding alloc_zero_table
freed-IsSound k v =
    let (addr, p) = phys_alloc_frames 1 k.phys in
    if_both (λ (r : ℕ × Kernel). r.0 ≢ 0 → IsSound k.ledger (phys_free_frames r.0 1 r.1.phys))
      (addr == 0) _ _ (λ _ ne. absurd (ne refl))
      (λ e ne.
        undo-IsSound addr 1 k.ledger k.phys p v
          (phys_alloc_frames-Allocated 1 k.phys v.physical (ground arith)))

-- What `xas_create` gives.
abbrev pub CreateOutcome : ℕ → Vm → Xas × Option XAspace × Vm → Type 0
CreateOutcome owner v (r, space, v') =
    IsCoherent v'
    × Unmoved v v'
    × (r ≡ ok
        → (pml4 : ℕ) × (pml4 ≢ 0)
          × (owner ≢ owner_kernel)
          × (space ≡ some (record { pml4_phys = pml4; owner_id = owner; live = true })))
    × (r ≢ ok
        → (space ≡ none)
          × ((g : ℕ) → bit_test v'.kernel.phys g ≡ bit_test v.kernel.phys g)
          × (v'.kernel.phys.free_frames ≡ v.kernel.phys.free_frames))

-- From a coherent state `xas_create`, whatever it returns, leaves a coherent state with the ledger
-- and the records as they were. It returns a live space of the owner, with a table, if it succeeds,
-- which it does for no owner 0; else it returns none, and every bit of the bitmap and the count of free
-- frames are as they were: the frame of a table that was taken is given back.
pub xas_create-Outcome :
    (owner : ℕ) (v : Vm) → IsCoherent v → CreateOutcome owner v (xas_create owner v)
unfolding xas_create fill_space
xas_create-Outcome owner v c =
    let (np, k) = alloc_zero_table v.kernel in
    let q = alloc_zero_table-IsQuiet v.kernel in
    let supply = alloc_zero_table-Supply v.kernel c.sound in
    let P = CreateOutcome owner v in
    if_both P ((v.pml4_phys == 0) || (owner == owner_kernel)) _ _
      (λ _. (
        c,
        record { ledger = refl; records = refl },
        λ h. absurd (cc),
        λ _. (refl, λ g. refl, refl),
      ))
      (λ a.
        if_both P (np == 0) _ _
          (λ z. (
            record { sound = rw q.ledger (q.sound _ c.sound); pinned = rw q.ledger c.pinned },
            record { ledger = q.ledger; records = refl },
            λ h. absurd (cc),
            λ _. let same = supply.1 (ground arith) in (refl, λ g. rw same refl, rw same refl),
          ))
          (λ b.
            if_both P (user_half_used (kernel_half - 1) 1 v.pml4_phys k) _ _
              (λ _. (
                record {
                  sound = rw q.ledger (freed-IsSound v.kernel c.sound (ground arith));
                  pinned = rw q.ledger c.pinned;
                },
                record { ledger = q.ledger; records = refl },
                λ h. absurd (cc),
                λ _.
                    let back =
                      free-Allocated 1 np v.kernel.phys k.phys c.sound.physical
                        (supply.0 (ground arith)) in
                    (refl, back.0, back.1),
              ))
              (λ _.
                let s = share_kernel-IsQuiet v.pml4_phys np k in
                (
                  record {
                    sound = rw (s.ledger, q.ledger) (s.sound _ (q.sound _ c.sound));
                    pinned = rw (s.ledger, q.ledger) c.pinned;
                  },
                  record { ledger = rw (s.ledger, q.ledger) refl; records = refl },
                  λ _. (np, ground arith, ground arith, refl),
                  λ h. absurd (h refl),
                ))))

-- The top table of a new space when the loop of `share_kernel` has reached entry `i`.
record Sharing (kp np : ℕ) (k : Kernel) (i : ℕ) (k' : Kernel) : Type 0 where
  root : (x : ℕ) → x < 512 → entry k' kp x ≡ entry k kp x
  shared :
      (x : ℕ)
      → x < 512
      → entry k' np x
        ≡ (if (x == 0) || (leb 256 x && not (leb i x)) then entry k kp x else entry k np x)

-- Two tables in different frames have no word in common.
abbrev Distinct : ℕ → ℕ → Type 0
Distinct kp np = (x y : ℕ) → x < 512 → y < 512 → (kp / 8 + x == np / 8 + y) ≡ false

Sharing-set :
    (kp np : ℕ) (k : Kernel) (i : ℕ) (k' : Kernel)
    → Distinct kp np
    → 256 ≤ i
    → i < 512
    → Sharing kp np k i k'
    → Sharing kp np k (i + 1) (set_entry np i (entry k' kp i) k')
Sharing-set kp np k i k' apart lo hi s = record {
  root = λ x p. rw (apart x i p hi) (s.root x p);
  shared = λ x p. elim (Bool-cases (x == i)) [
    | inl e ↦ let same : x ≡ i = ground arith in rw same (ground (arith, s.root i hi))
    | inr e ↦ ground (arith, s.shared x p)
  ];
}

share_kernel-Sharing :
    (kp np : ℕ) (k : Kernel) → Distinct kp np → Sharing kp np k 512 (share_kernel kp np k)
unfolding share_kernel
share_kernel-Sharing kp np k apart =
    for_up_inv (Sharing kp np k) (λ i k. set_entry np i (entry k kp i) k) (xpt_ents - kernel_half)
      kernel_half 512 (λ i k' lo hi s. Sharing-set kp np k i k' apart lo hi s)
      (set_entry np 0 (entry k kp 0) k) refl
      (record {
        root = λ x p. rw (apart x 0 p (omega arith)) refl;
        shared = λ x p. elim (Bool-cases (x == 0)) [
          | inl e ↦ let same : x ≡ 0 = ground arith in rw same (ground arith)
          | inr e ↦ ground arith
        ];
      })

-- A new table is zero, and the other words of memory are as before.
pub alloc_zero_table-cleared :
    (k : Kernel) (w : ℕ)
    → (alloc_zero_table k).0 ≢ 0
    → (alloc_zero_table k).1.ram w
      ≡ (if in_range ((alloc_zero_table k).0 / 8) 512 w then 0 else k.ram w)
unfolding alloc_zero_table clear_table
alloc_zero_table-cleared k w =
    if_both
      (λ (r : ℕ × Kernel). r.0 ≢ 0 → r.1.ram w ≡ (if in_range (r.0 / 8) 512 w then 0 else k.ram w))
      ((phys_alloc_frames 1 k.phys).0 == 0) _ _ (λ _ h. absurd (h refl))
      (λ _ _. zero_loop 512 ((phys_alloc_frames 1 k.phys).0 / 8) w k.ram)

keep_phys :
    (kp np : ℕ) (k0 k : Kernel)
    → Allocated 1 k0.phys np k.phys
    → Allocated 1 k0.phys np (share_kernel kp np k).phys
unfolding share_kernel
keep_phys kp np k0 k a =
    for_up_inv (λ _ (k' : Kernel). Allocated 1 k0.phys np k'.phys)
      (λ i k. set_entry np i (entry k kp i) k) (xpt_ents - kernel_half) kernel_half xpt_ents
      (λ _ _ _ _ h. h) (set_entry np 0 (entry k kp 0) k) refl a

table_word :
    (kp np : ℕ) (k0 k : Kernel) (x : ℕ)
    → x < 512
    → Distinct kp np
    → Sharing kp np k 512 (share_kernel kp np k)
    → ((w : ℕ) → k.ram w ≡ (if in_range (np / 8) 512 w then 0 else k0.ram w))
    → entry (share_kernel kp np k) np x ≡ (if (x == 0) || leb 256 x then entry k0 kp x else 0)
table_word kp np k0 k x p apart s clear =
    let inside : in_range (np / 8) 512 (np / 8 + x) ≡ true = ground arith in
    let outside : in_range (np / 8) 512 (kp / 8 + x) ≡ false =
      elim (Bool-cases (in_range (np / 8) 512 (kp / 8 + x))) [
        | inl e ↦ absurd (ground (arith, apart x (kp / 8 + x - np / 8) p (ground arith)))
        | inr e ↦ e
      ] in
    let zero_word : entry k np x ≡ 0 = rw inside at (clear (np / 8 + x)) in
    let same_word : entry k kp x ≡ entry k0 kp x = rw outside at (clear (kp / 8 + x)) in
    ground (arith, s.shared x p, zero_word, same_word)

-- What a new space shares.
abbrev pub Shared : Vm → Xas × Option XAspace × Vm → Type 0
Shared v (r, space, v') =
    r ≡ ok
    → (pml4 : ℕ) × Allocated 1 v.kernel.phys pml4 v'.kernel.phys
      × ((x : ℕ)
          → x < 512
          → entry v'.kernel pml4 x
            ≡ (if (x == 0) || leb 256 x then entry v.kernel v.pml4_phys x else 0))
      × ((o : XAspace) → space ≡ some o → o.pml4_phys ≡ pml4)

-- If the kernel's own top table stands in an aligned frame that is in use: a successful `xas_create`
-- has taken one free frame for the top table of the space. Its first entry and its upper half are
-- those of the kernel, and its other entries are 0.
pub xas_create-Shared :
    (owner : ℕ) (v : Vm)
    → IsCoherent v
    → v.pml4_phys % frame_size ≡ 0
    → bit_test v.kernel.phys (v.pml4_phys / frame_size) ≡ false
    → Shared v (xas_create owner v)
unfolding xas_create fill_space
xas_create-Shared owner v c aligned used =
    let (np, k) = alloc_zero_table v.kernel in
    let kp = v.pml4_phys in
    if_both (Shared v) ((kp == 0) || (owner == owner_kernel)) _ _ (λ _ h. absurd (cc))
      (λ a.
        if_both (Shared v) (np == 0) _ _ (λ _ h. absurd (cc))
          (λ b.
            if_both (Shared v) (user_half_used (kernel_half - 1) 1 kp k) _ _ (λ _ h. absurd (cc))
              (λ _ _.
                let new : np ≢ 0 = ground arith in
                let taken = (alloc_zero_table-Supply v.kernel c.sound).0 new in
                let free = taken.was_free (np / frame_size) (omega arith) (omega arith) in
                let other : np / frame_size ≢ kp / frame_size =
                  λ e. absurd (ground (arith, rw e at free, used)) in
                let apart : Distinct kp np = λ x y p q. ground (arith, taken.aligned, other) in
                let s = share_kernel-Sharing kp np k apart in
                (
                  np,
                  keep_phys kp np v.kernel k taken,
                  λ x p.
                      table_word kp np v.kernel k x p apart s
                        (λ w. alloc_zero_table-cleared v.kernel w new),
                  λ o e. sym (ap (λ (z : XAspace). z.pml4_phys) (some-injective e)),
                ))))
