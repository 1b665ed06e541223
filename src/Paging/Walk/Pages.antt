-- ===== src/Paging/Walk/Pages.antt =====
-- The pages that `xas_map` of paging.c leaves in the page tables.
use xasmos.Base.{
  ℕ, zero, suc, ◌+◌, ◌-◌, ◌*◌, ◌/◌, ◌%◌, ◌^◌, ◌≤◌, ◌<◌, ◌≡◌, ◌≢◌, refl, ◌∙◌, sym, not, ◌&&◌, ◌||◌,
  some, arith, ◌==◌, ltb, leb, if_both, bit_and, add64, Bool-cases, Option-cases, inl, inr,
}
use xasmos.Physical.State.{frame_size}
use xasmos.Ledger.Table.{Ledger, slot_of}
use xasmos.Ledger.Inv.{lookup_live-some}
use xasmos.Ledger.Ops.{Kernel, Acquire, pinned, xtok_map_acquire}
use xasmos.Ledger.Sound.{IsSound}
use xasmos.Ledger.Pin.{Pinned, map_acquire-Pinned, map_acquire-IsSound}
use xasmos.Paging.Quiet.{map_page-IsQuiet}
use xasmos.Paging.Tables.{Xas, ok, entry_addr, walk_pte, map_page, unmap_pages}
use xasmos.Paging.Spaces.{
  XAspace, Vm, perm_w, perm_x, user_base, user_top, rights_needed, leaf_flags, map_frames,
  record_mapping, map_pinned, map_acquired, map_err, map_locked, xas_map, count_owned, max_maps,
  max_maps_per_owner, free_record, unpin,
}
use xasmos.Paging.Coherent.{IsCoherent, MapOutcome, elim_ok}
use xasmos.Paging.Laws.{xas_map-Outcome}
use xasmos.Paging.Walk.{IsTables, Grows, Grows-refl, Grows-trans}
use xasmos.Paging.Walk.Path.{Path4, Path4-walk, Path4-Grows, map_page-PageMapped}

-- The last-level entry of page `j`.
abbrev pub page_entry : ℕ → ℕ → ℕ → ℕ
page_entry phys leaf j = entry_addr (add64 phys (j * frame_size)) + leaf

-- Pages `i` to `i + n - 1` are mapped.
record PagesMapped (lvl : ℕ → ℕ) (pml4 virt phys leaf i n : ℕ) (k k' : Kernel) : Type 0 where
  pub next : ℕ → ℕ
  pub grows : Grows lvl next k k'
  pub paths :
      (j : ℕ)
      → i ≤ j
      → j < i + n
      → Path4 next pml4 (add64 virt (j * frame_size)) (page_entry phys leaf j) k'

map_frames-PagesMapped :
    (n i : ℕ) (lvl : ℕ → ℕ) (pml4 virt phys leaf : ℕ) (k : Kernel)
    → IsSound k.ledger k.phys
    → IsTables lvl k
    → pml4 % frame_size ≡ 0
    → lvl (pml4 / frame_size) ≡ 4
    → user_base ≤ virt
    → virt + (i + n) * frame_size ≤ user_top
    → leaf % 2 ≡ 1
    → (map_frames n i pml4 virt phys leaf k).0 ≡ ok
    → PagesMapped lvl pml4 virt phys leaf i n k (map_frames n i pml4 virt phys leaf k).1
unfolding map_frames
map_frames-PagesMapped zero i lvl pml4 virt phys leaf k v tables a top lo hi odd = λ h. record {
  next = lvl;
  grows = Grows-refl lvl k tables;
  paths = λ j p q. absurd (omega arith);
}
map_frames-PagesMapped (suc n) i lvl pml4 virt phys leaf k v tables a top lo hi odd =
    let va = add64 virt (i * frame_size) in
    let pa = add64 phys (i * frame_size) in
    let k1 = (map_page pml4 va pa leaf k).1 in
    let q = map_page-IsQuiet pml4 va pa leaf k in
    let v1 : IsSound k1.ledger k1.phys = rw q.ledger (q.sound _ v) in
    elim_ok (λ (r : Xas × Kernel). r.0 ≡ ok → PagesMapped lvl pml4 virt phys leaf i (suc n) k r.1)
      (map_page pml4 va pa leaf k).0 (map_frames n (i + 1) pml4 virt phys leaf k1)
      (λ e. (e, unmap_pages pml4 virt i k1))
      (λ done h.
        let m =
          map_page-PageMapped lvl pml4 va pa leaf k v tables a top (ground (arith, lo, hi)) odd
            done in
        let n4 : lvl (pml4 / frame_size) ≢ 0 = λ z. absurd (omega (arith, top, z)) in
        let top1 = m.grows.levels (pml4 / frame_size) n4 ∙ top in
        let rest =
          map_frames-PagesMapped n (i + 1) m.next pml4 virt phys leaf k1 v1 m.grows.tables a top1 lo
            (omega arith) odd h in
        record {
          next = rest.next;
          grows = Grows-trans lvl m.next rest.next k k1 _ m.grows rest.grows;
          paths = λ j p b. elim (Bool-cases (j == i)) [
            | inl e ↦
                let same : j ≡ i = ground arith in
                rw same (
                  Path4-Grows m.next rest.next pml4 va (page_entry phys leaf i) k1 _ rest.grows a
                    (λ z. absurd (omega (arith, top1, z))) m.path)
            | inr e ↦ rest.paths j (ground arith) (omega arith)
          ];
        })
      (λ ne h. absurd (ne h))

leaf_flags_odd : (perms : ℕ) → leaf_flags perms % 2 ≡ 1
unfolding leaf_flags
leaf_flags_odd perms = ground arith

-- What a successful `xas_map` leaves in the page tables.
pub record Translated (lvl : ℕ → ℕ) (space : XAspace) (virt tok perms : ℕ) (v v' : Vm)
    : Type 0 where
  pub next : ℕ → ℕ
  pub grows : Grows lvl next v.kernel v'.kernel
  pub pages :
      (j : ℕ)
      → j < (v.kernel.ledger.table (slot_of tok)).n_frames
      → (w : ℕ) × (walk_pte space.pml4_phys (add64 virt (j * frame_size)) v'.kernel ≡ some w)
        × (v'.kernel.ram w
            ≡ page_entry (v.kernel.ledger.table (slot_of tok)).phys (leaf_flags perms) j)

-- The state after a call, if it succeeds.
abbrev IfMapped : (ℕ → ℕ) → XAspace → ℕ → ℕ → ℕ → Vm → Xas × Vm → Type 0
IfMapped lvl space virt tok perms v (r, v') = r ≡ ok → Translated lvl space virt tok perms v v'

module _ (lvl : ℕ → ℕ) (space : XAspace) (virt tok perms : ℕ) (v : Vm) (c : IsCoherent v)
    (tables : IsTables lvl v.kernel) (aligned : space.pml4_phys % frame_size ≡ 0)
    (top : lvl (space.pml4_phys / frame_size) ≡ 4) (lo : user_base ≤ virt)
    (hi : virt < user_top) where
  Pinned-IfMapped :
      (phys n : ℕ) (l : Ledger)
      → Pinned tok space.owner_id (rights_needed perms) phys n v.kernel.ledger l
      → IsSound l v.kernel.phys
      → IfMapped lvl space virt tok perms v (
          map_pinned space virt tok perms phys n
            (record v { kernel = record v.kernel { ledger = l } }))
  unfolding map_pinned record_mapping
  Pinned-IfMapped phys n l pin sound =
      let k1 = record v.kernel { ledger = l } in
      let v1 = record v { kernel = k1 } in
      let P = IfMapped lvl space virt tok perms v in
      let same_tables : IsTables lvl k1 = record { used = tables.used; points = tables.points } in
      let slot : pin.slot ≡ slot_of tok =
        sym (lookup_live-some tok v.kernel.ledger pin.was_live).1 in
      if_both P ((n == 0) || ltb ((user_top - virt) / frame_size) n) _ _ (λ _ h. absurd (cc))
        (λ b. elim (Option-cases (free_record max_maps 0 v.maps)) [
          | inl e ↦ rw e (λ h. absurd (cc))
          | inr (i, e) ↦
              let mapped = map_frames n 0 space.pml4_phys virt phys (leaf_flags perms) k1 in
              rw e (
                elim_ok P mapped.0 _ (λ e. (e, record v1 { kernel = unpin tok mapped.1 }))
                  (λ done _.
                    let m =
                      map_frames-PagesMapped n 0 lvl space.pml4_phys virt phys (leaf_flags perms) k1
                        sound same_tables aligned top lo (ground arith) (leaf_flags_odd perms)
                        done in
                    record {
                      next = m.next;
                      grows = record {
                        tables = record {
                          used = m.grows.tables.used;
                          points = m.grows.tables.points;
                        };
                        levels = m.grows.levels;
                        kept = m.grows.kept;
                      };
                      pages = rw (← slot) (λ j p. rw (← pin.address) (
                          Path4-walk m.next space.pml4_phys (add64 virt (j * frame_size))
                            (page_entry phys (leaf_flags perms) j) mapped.1
                            (m.paths j (omega arith) (omega (arith, pin.size, p)))));
                    })
                  (λ ne h. absurd (ne h)))
        ])

  acquired-IfMapped :
      (a : Acquire) (l : Ledger)
      → ((phys n : ℕ)
          → a ≡ pinned phys n
          → Pinned tok space.owner_id (rights_needed perms) phys n v.kernel.ledger l)
      → IsSound l v.kernel.phys
      → IfMapped lvl space virt tok perms v (
          map_acquired space virt tok perms a
            (record v { kernel = record v.kernel { ledger = l } }))
  unfolding map_acquired map_err
  acquired-IfMapped (pinned phys n) l pin sound = Pinned-IfMapped phys n l (pin phys n refl) sound
  acquired-IfMapped Acquire.estale l pin sound = λ h. absurd (cc)
  acquired-IfMapped Acquire.eowner l pin sound = λ h. absurd (cc)
  acquired-IfMapped Acquire.erights l pin sound = λ h. absurd (cc)
  acquired-IfMapped Acquire.ekind l pin sound = λ h. absurd (cc)
  acquired-IfMapped Acquire.ebusy l pin sound = λ h. absurd (cc)

  locked-IfMapped : IfMapped lvl space virt tok perms v (map_locked space virt tok perms v)
  unfolding map_locked
  locked-IfMapped =
      let needed = rights_needed perms in
      let l = v.kernel.ledger in
      if_both (IfMapped lvl space virt tok perms v)
        (leb max_maps_per_owner (count_owned space.owner_id v.maps)) _ _ (λ _ h. absurd (cc))
        (λ _.
          acquired-IfMapped (xtok_map_acquire tok space.owner_id needed l).0
            (xtok_map_acquire tok space.owner_id needed l).1
            (λ phys n e. map_acquire-Pinned tok space.owner_id needed l c.sound.ledger e)
            (map_acquire-IsSound tok space.owner_id needed l v.kernel.phys c.sound))

-- From a coherent state in which `lvl` gives the page tables their levels, and for a space whose top
-- table has level 4: after a successful `xas_map`, a walk of the space's page tables for each page of
-- the token finds an entry with the address of that page's frame and the flags of the permissions.
-- The tables still have levels, and no entry that was present in a table has changed.
pub xas_map-Translated :
    (lvl : ℕ → ℕ) (space : XAspace) (virt tok perms : ℕ) (v : Vm)
    → IsCoherent v
    → IsTables lvl v.kernel
    → space.pml4_phys % frame_size ≡ 0
    → lvl (space.pml4_phys / frame_size) ≡ 4
    → (xas_map (some space) virt tok perms v).0 ≡ ok
    → Translated lvl space virt tok perms v (xas_map (some space) virt tok perms v).1
unfolding xas_map
xas_map-Translated lvl space virt tok perms v c tables aligned top =
    let P = IfMapped lvl space virt tok perms v in
    if_both P (not space.live) _ _ (λ _ h. absurd (cc))
      (λ _.
        if_both P ((perms == 0) || not (bit_and perms (2 ^ 32 - 1 - 7) == 0)) _ _
          (λ _ h. absurd (cc))
          (λ _.
            if_both P (not (bit_and perms perm_w == 0) && not (bit_and perms perm_x == 0)) _ _
              (λ _ h. absurd (cc))
              (λ _.
                if_both P (not (virt % frame_size == 0)) _ _ (λ _ h. absurd (cc))
                  (λ _.
                    if_both P (ltb virt user_base || leb user_top virt) _ _ (λ _ h. absurd (cc))
                      (λ e.
                        locked-IfMapped lvl space virt tok perms v c tables aligned top
                          (ground arith) (ground arith))))))

-- What `xas_map` does to the ledger, the records and the page tables.
abbrev pub MapPages : (ℕ → ℕ) → XAspace → ℕ → ℕ → ℕ → Vm → Xas × Vm → Type 0
MapPages lvl space virt tok perms v r =
    MapOutcome space virt tok perms v r × (r.0 ≡ ok → Translated lvl space virt tok perms v r.1)

-- From a coherent state in which `lvl` gives the page tables their levels, for a 64-bit token and a
-- space whose top table has level 4: `xas_map` leaves a coherent state. If it succeeds, it has filled
-- one unused record with the space, the owner, the token and its pages, which lie within user space;
-- the token is live, belongs to the owner and has every right that the permissions ask for, and the
-- ledger has changed in one more mapping of it. For each page of the token, a walk of the space's page
-- tables finds an entry with the address of that page's frame and the flags of the permissions; the
-- tables still have levels, and no entry that was present in a table has changed. If it fails, ledger
-- and records are as they were.
pub xas_map-MapPages :
    (lvl : ℕ → ℕ) (space : XAspace) (virt tok perms : ℕ) (v : Vm)
    → IsCoherent v
    → tok < 2 ^ 64
    → IsTables lvl v.kernel
    → space.pml4_phys % frame_size ≡ 0
    → lvl (space.pml4_phys / frame_size) ≡ 4
    → MapPages lvl space virt tok perms v (xas_map (some space) virt tok perms v)
xas_map-MapPages lvl space virt tok perms v c word tables aligned top = (
  xas_map-Outcome space virt tok perms v c word,
  λ done. xas_map-Translated lvl space virt tok perms v c tables aligned top done,
)
