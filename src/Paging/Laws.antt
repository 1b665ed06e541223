-- ===== src/Paging/Laws.antt =====
-- What `xas_map` of paging.c does.
use xasmos.Base.{
  ℕ, ◌-◌, ◌%◌, ◌^◌, ◌≤◌, ◌<◌, ◌≡◌, ◌≢◌, refl, true, not, ◌&&◌, ◌||◌, some, arith, ◌==◌, ltb, leb,
  if_both, bit_and,
}
use xasmos.Physical.State.{frame_size}
use xasmos.Ledger.Table.{Ledger}
use xasmos.Ledger.Ops.{Acquire, pinned, xtok_map_acquire}
use xasmos.Ledger.Sound.{IsSound}
use xasmos.Ledger.Pin.{Pinned, map_acquire-Pinned, map_acquire_refused, map_acquire-IsSound}
use xasmos.Paging.Tables.{Xas, ok, arg, wx, range, token, owner, rights, busy}
use xasmos.Paging.Spaces.{
  XAspace, Vm, perm_w, perm_x, user_base, user_top, rights_needed, map_acquired, map_err,
  map_locked, xas_map, count_owned, max_maps_per_owner,
}
use xasmos.Paging.Coherent.{IsCoherent, MapOutcome}
use xasmos.Paging.Record.{map_pinned-Outcome}

map_acquired-Outcome :
    (space : XAspace) (virt tok perms : ℕ) (v : Vm) (a : Acquire) (l : Ledger)
    → IsCoherent v
    → tok < 2 ^ 64
    → virt < user_top
    → ((phys n : ℕ)
        → a ≡ pinned phys n
        → Pinned tok space.owner_id (rights_needed perms) phys n v.kernel.ledger l)
    → (((phys n : ℕ) → a ≢ pinned phys n) → l ≡ v.kernel.ledger)
    → IsSound l v.kernel.phys
    → MapOutcome space virt tok perms v
        (map_acquired space virt tok perms a (record v { kernel = record v.kernel { ledger = l } }))
unfolding map_acquired map_err
map_acquired-Outcome space virt tok perms v a l c word low pin kept sound = go a refl
  where
    refused :
        (e : Xas)
        → e ≢ ok
        → l ≡ v.kernel.ledger
        → MapOutcome space virt tok perms v
            (e, record v { kernel = record v.kernel { ledger = l } })
    refused e ne h = rw h (c, λ q. absurd (ne q), λ _. record { ledger = refl; records = refl })

    go :
        (b : Acquire)
        → a ≡ b
        → MapOutcome space virt tok perms v (
            map_acquired space virt tok perms b
              (record v { kernel = record v.kernel { ledger = l } }))
    go (pinned phys n) e =
        map_pinned-Outcome space virt tok perms phys n v l c word low (pin phys n e) sound
    go Acquire.estale e = refused token (λ h. cc) (kept (λ p n h. cc))
    go Acquire.eowner e = refused owner (λ h. cc) (kept (λ p n h. cc))
    go Acquire.erights e = refused rights (λ h. cc) (kept (λ p n h. cc))
    go Acquire.ekind e = refused token (λ h. cc) (kept (λ p n h. cc))
    go Acquire.ebusy e = refused busy (λ h. cc) (kept (λ p n h. cc))

map_locked-Outcome :
    (space : XAspace) (virt tok perms : ℕ) (v : Vm)
    → IsCoherent v
    → tok < 2 ^ 64
    → virt < user_top
    → MapOutcome space virt tok perms v (map_locked space virt tok perms v)
unfolding map_locked
map_locked-Outcome space virt tok perms v c word low =
    let needed = rights_needed perms in
    let l = v.kernel.ledger in
    if_both (MapOutcome space virt tok perms v)
      (leb max_maps_per_owner (count_owned space.owner_id v.maps)) _ _
      (λ _. (c, λ h. absurd (cc), λ _. record { ledger = refl; records = refl }))
      (λ _.
        map_acquired-Outcome space virt tok perms v (xtok_map_acquire tok space.owner_id needed l).0
          (xtok_map_acquire tok space.owner_id needed l).1 c word low
          (λ phys n e. map_acquire-Pinned tok space.owner_id needed l c.sound.ledger e)
          (λ h. map_acquire_refused tok space.owner_id needed l h)
          (map_acquire-IsSound tok space.owner_id needed l v.kernel.phys c.sound))

-- From a coherent state and for a 64-bit token, `xas_map` leaves a coherent state. If it succeeds,
-- it has filled one unused record with the space, the owner, the token and its pages, which lie
-- within user space; the token is live, belongs to the owner, has that many frames and every right
-- that the permissions ask for, and the ledger has changed in one more mapping of it. If it fails,
-- ledger and records are as they were.
pub xas_map-Outcome :
    (space : XAspace) (virt tok perms : ℕ) (v : Vm)
    → IsCoherent v
    → tok < 2 ^ 64
    → MapOutcome space virt tok perms v (xas_map (some space) virt tok perms v)
unfolding xas_map
xas_map-Outcome space virt tok perms v c word =
    let P = MapOutcome space virt tok perms v in
    let stays : (e : Xas) → e ≢ ok → P (e, v) =
      λ e ne. (c, λ h. absurd (ne h), λ _. record { ledger = refl; records = refl }) in
    if_both P (not space.live) _ _ (λ _. stays arg (λ h. cc))
      (λ _.
        if_both P ((perms == 0) || not (bit_and perms (2 ^ 32 - 1 - 7) == 0)) _ _
          (λ _. stays arg (λ h. cc))
          (λ _.
            if_both P (not (bit_and perms perm_w == 0) && not (bit_and perms perm_x == 0)) _ _
              (λ _. stays wx (λ h. cc))
              (λ _.
                if_both P (not (virt % frame_size == 0)) _ _ (λ _. stays range (λ h. cc))
                  (λ _.
                    if_both P (ltb virt user_base || leb user_top virt) _ _
                      (λ _. stays range (λ h. cc))
                      (λ e. map_locked-Outcome space virt tok perms v c word (ground arith))))))

-- What a successful `xas_map` has checked of its arguments.
pub record Allowed (space : XAspace) (virt perms : ℕ) (v : Vm) : Type 0 where
  pub live : space.live ≡ true
  pub known : bit_and perms (2 ^ 32 - 1 - 7) ≡ 0
  pub exclusive : bit_and perms perm_w ≢ 0 → bit_and perms perm_x ≡ 0
  pub aligned : virt % frame_size ≡ 0
  pub above : user_base ≤ virt
  pub below : virt < user_top
  pub within : count_owned space.owner_id v.maps < max_maps_per_owner

-- `xas_map` succeeds only for a live space, for known permissions that do not combine writing and
-- executing, at an aligned address of user space, and while the owner has fewer than 64 records.
pub xas_map-Allowed :
    (space : XAspace) (virt tok perms : ℕ) (v : Vm)
    → (xas_map (some space) virt tok perms v).0 ≡ ok
    → Allowed space virt perms v
unfolding xas_map map_locked
xas_map-Allowed space virt tok perms v =
    let P = λ (r : Xas × Vm). r.0 ≡ ok → Allowed space virt perms v in
    if_both P (not space.live) _ _ (λ _ h. absurd (cc))
      (λ a.
        if_both P ((perms == 0) || not (bit_and perms (2 ^ 32 - 1 - 7) == 0)) _ _
          (λ _ h. absurd (cc))
          (λ b.
            if_both P (not (bit_and perms perm_w == 0) && not (bit_and perms perm_x == 0)) _ _
              (λ _ h. absurd (cc))
              (λ c.
                if_both P (not (virt % frame_size == 0)) _ _ (λ _ h. absurd (cc))
                  (λ d.
                    if_both P (ltb virt user_base || leb user_top virt) _ _ (λ _ h. absurd (cc))
                      (λ e.
                        if_both P (leb max_maps_per_owner (count_owned space.owner_id v.maps)) _ _
                          (λ _ h. absurd (cc))
                          (λ f _. record {
                            live = ground arith;
                            known = ground arith;
                            exclusive = ground arith;
                            aligned = ground arith;
                            above = ground arith;
                            below = ground arith;
                            within = ground arith;
                          }))))))
