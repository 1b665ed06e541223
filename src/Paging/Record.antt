-- ===== src/Paging/Record.antt =====
-- What `xas_map` of paging.c does once the token is pinned.
use xasmos.Base.{
  ℕ, ◌+◌, ◌-◌, ◌*◌, ◌/◌, ◌^◌, ◌≤◌, ◌<◌, ◌≡◌, ◌≢◌, refl, ◌∙◌, sym, true, false, ◌||◌, some, arith,
  ◌==◌, ltb, if_both, update, Option-cases, inl, inr,
}
use xasmos.Bitmap.{weigh}
use xasmos.Physical.State.{frame_size}
use xasmos.Ledger.Table.{Ledger, lookup_live, slot_of}
use xasmos.Ledger.Ops.{Kernel, set_map_count}
use xasmos.Ledger.Inv.{lookup_live-some}
use xasmos.Ledger.Sound.{IsSound}
use xasmos.Ledger.Pin.{Pinned}
use xasmos.Paging.Tables.{ok, range, nomem}
use xasmos.Paging.Spaces.{
  MapRec, XAspace, Vm, max_maps, user_top, unpin, free_record, rights_needed, leaf_flags,
  map_frames, record_mapping, map_pinned,
}
use xasmos.Paging.Quiet.{IsQuiet, quiet_refl}
use xasmos.Paging.Pins.{HasToken, IsPinned, IsPinned-update}
use xasmos.Paging.Coherent.{
  IsCoherent, MapOutcome, elim_ok, map_frames-IsQuiet, free_record_lem, undone-Outcome,
}

recorded-Outcome :
    (space : XAspace) (virt tok perms phys n i : ℕ) (v : Vm) (l : Ledger) (k : Kernel)
    → IsCoherent v
    → tok < 2 ^ 64
    → Pinned tok space.owner_id (rights_needed perms) phys n v.kernel.ledger l
    → IsSound l v.kernel.phys
    → IsQuiet (record v.kernel { ledger = l }) k
    → i < max_maps
    → (v.maps i).live ≡ false
    → n ≢ 0
    → virt + n * frame_size ≤ user_top
    → MapOutcome space virt tok perms v (
      ok,
      record {
        kernel = k;
        maps = update v.maps i (record {
          as_pml4 = space.pml4_phys;
          owner = space.owner_id;
          virt = virt;
          tok = tok;
          pages = n;
          live = true;
        });
        pml4_phys = v.pml4_phys;
      },
    )
unfolding weigh
recorded-Outcome space virt tok perms phys n i v l k c word pin sound q inside unused sized fits =
    let r : MapRec = record {
      as_pml4 = space.pml4_phys;
      owner = space.owner_id;
      virt = virt;
      tok = tok;
      pages = n;
      live = true;
    } in
    let live = lookup_live-some tok v.kernel.ledger pin.was_live in
    let slot : pin.slot ≡ slot_of tok = ground (arith, live) in
    let counted : k.ledger
        ≡ set_map_count (slot_of tok) ((v.kernel.ledger.table (slot_of tok)).map_count + 1)
            v.kernel.ledger =
      rw (← slot) (q.ledger ∙ pin.ledger) in
    let found : lookup_live tok v.kernel.ledger ≡ some (slot_of tok) = rw (← slot) pin.was_live in
    let has : HasToken v.kernel.ledger r = record {
      found = found;
      word = word;
      owner = rw (← slot) pin.owner;
      pages = rw (← slot) (sym pin.size);
    } in
    let pinned =
      IsPinned-update (slot_of tok) ((v.kernel.ledger.table (slot_of tok)).map_count + 1) i r
        v.kernel.ledger v.maps inside (ground (arith, unused)) (λ t h. ground (arith, h, unused))
        (λ _. has) c.pinned in
    let now : IsPinned k.ledger (update v.maps i r) = rw counted pinned in
    let here : (i == i) ≡ true = ground arith in
    (
      record { sound = rw q.ledger (q.sound l sound); pinned = now },
      λ _. record {
        index = i;
        pages = n;
        inside = inside;
        unused = unused;
        records = refl;
        token = now.mapped i inside (rw here refl);
        rights = rw (← slot) pin.rights;
        counted = counted;
        sized = sized;
        fits = fits;
      },
      λ h. absurd (h refl),
    )

pub map_pinned-Outcome :
    (space : XAspace) (virt tok perms phys n : ℕ) (v : Vm) (l : Ledger)
    → IsCoherent v
    → tok < 2 ^ 64
    → virt < user_top
    → Pinned tok space.owner_id (rights_needed perms) phys n v.kernel.ledger l
    → IsSound l v.kernel.phys
    → MapOutcome space virt tok perms v (
        map_pinned space virt tok perms phys n
          (record v { kernel = record v.kernel { ledger = l } }))
unfolding map_pinned record_mapping
map_pinned-Outcome space virt tok perms phys n v l c word low pin sound =
    let k1 = record v.kernel { ledger = l } in
    let v1 = record v { kernel = k1 } in
    let P = MapOutcome space virt tok perms v in
    let still = quiet_refl k1 in
    if_both P ((n == 0) || ltb ((user_top - virt) / frame_size) n) _ _
      (λ _. undone-Outcome space virt tok perms phys n range v l k1 c pin still (λ h. cc))
      (λ b. elim (Option-cases (free_record max_maps 0 v.maps)) [
        | inl e ↦
            rw e (undone-Outcome space virt tok perms phys n nomem v l k1 c pin still (λ h. cc))
        | inr (i, e) ↦
            let (lo, hi, unused) = free_record_lem max_maps 0 i v.maps e in
            let mapped = map_frames n 0 space.pml4_phys virt phys (leaf_flags perms) k1 in
            let quiet = map_frames-IsQuiet n 0 space.pml4_phys virt phys (leaf_flags perms) k1 in
            rw e (
              elim_ok P mapped.0 _ (λ e. (e, record v1 { kernel = unpin tok mapped.1 }))
                (λ _.
                  recorded-Outcome space virt tok perms phys n i v l mapped.1 c word pin sound quiet
                    hi unused (ground arith) (ground arith))
                (λ ne.
                  undone-Outcome space virt tok perms phys n mapped.0 v l mapped.1 c pin quiet ne))
      ])
