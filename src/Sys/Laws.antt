-- ===== src/Sys/Laws.antt =====
-- What the resource syscalls promise an owner and its neighbours.
use xasmos.Base.{
  inl, ℕ, ◌+◌, ◌-◌, ◌%◌, ◌^◌, ◌≤◌, ◌<◌, ◌≡◌, ◌≢◌, refl, true, not, ◌||◌, arith, ltb, leb, ◌==◌,
  if◌then◌else◌, if_both, sum_below-change,
}
use xasmos.Ledger.Table.{table_slots, invalid}
use xasmos.Ledger.Ops.{Kernel, xtok_alloc_ram, xtok_owner_usage, xtok_release_owned}
use xasmos.Ledger.Sound.{IsSound}
use xasmos.Ledger.Alloc.{xtok_alloc_ram-IsSound}
use xasmos.Ledger.Grant.{Granted, Refused, xtok_alloc_ram-Outcome}
use xasmos.Ledger.Release.{release_impl-IsSound}
use xasmos.Sys.Calls.{
  Quotas, Status, success, inval, nomem, perm, Reply, quota_of, beyond_user_rights, fail, sys_alloc,
  sys_free,
}
use xasmos.Sys.Usage.{frames_of, token_of, frames_sum, tokens_sum, owner_usage-sums}

-- A seal adds its frames and one token to its owner's sums, and nothing to any other owner's.
Granted-sums :
    (owner n rights tok other : ℕ) (k k' : Kernel)
    → Granted owner n rights k tok k'
    → (frames_sum other k'.ledger ≡ frames_sum other k.ledger + (if other == owner then n else 0))
      × (tokens_sum other k'.ledger ≡ tokens_sum other k.ledger + (if other == owner then 1 else 0))
unfolding frames_sum tokens_sum
Granted-sums owner n rights tok other k k' g =
    let frames =
      sum_below-change table_slots g.slot (λ s. frames_of other (k.ledger.table s))
        (λ s. frames_of other (k'.ledger.table s)) g.inside (λ j q. rw (g.rest j q) refl) in
    let tokens =
      sum_below-change table_slots g.slot (λ s. token_of other (k.ledger.table s))
        (λ s. token_of other (k'.ledger.table s)) g.inside (λ j q. rw (g.rest j q) refl) in
    ground (arith, frames, tokens, g.dead, g.now_live, g.owned, g.size)

-- How `sys_alloc` ends.
pub sys_alloc_cases {ℓ} :
    (P : Reply × Kernel → Type ℓ) (owner n rights : ℕ) (q : Quotas) (k : Kernel)
    → ((s : Status) → s ≢ success → P (fail s k))
    → ((xtok_alloc_ram owner n (rights % 2 ^ 32) k).0 ≡ invalid
        → P (fail nomem (xtok_alloc_ram owner n (rights % 2 ^ 32) k).1))
    → (n ≢ 0
        → beyond_user_rights rights ≡ 0
        → (xtok_owner_usage owner k.ledger).tokens < (quota_of owner q).tokens
        → (xtok_owner_usage owner k.ledger).frames + n ≤ (quota_of owner q).frames
        → (xtok_alloc_ram owner n (rights % 2 ^ 32) k).0 ≢ invalid
        → P (
          record { rax = success; rdx = (xtok_alloc_ram owner n (rights % 2 ^ 32) k).0 },
          (xtok_alloc_ram owner n (rights % 2 ^ 32) k).1,
        ))
    → P (sys_alloc owner n rights q k)
unfolding sys_alloc
sys_alloc_cases P owner n rights q k early late done =
    if_both P ((n == 0) || (rights == 0)) _ _ (λ _. early inval (λ h. cc))
      (λ a.
        if_both P (not (beyond_user_rights rights == 0)) _ _ (λ _. early perm (λ h. cc))
          (λ b.
            if_both P (leb (quota_of owner q).tokens (xtok_owner_usage owner k.ledger).tokens) _ _
              (λ _. early nomem (λ h. cc))
              (λ c.
                if_both P
                  (ltb (quota_of owner q).frames n
                    || ltb ((quota_of owner q).frames - n) (xtok_owner_usage owner k.ledger).frames)
                  _ _ (λ _. early nomem (λ h. cc))
                  (λ d.
                    if_both P ((xtok_alloc_ram owner n (rights % 2 ^ 32) k).0 == invalid) _ _
                      (λ e. late (ground arith))
                      (λ e.
                        done (ground arith) (ground arith) (ground arith) (ground arith)
                          (ground arith))))))

-- What a program gets from `sys_alloc`.
pub record Allotted (owner n rights : ℕ) (q : Quotas) (k : Kernel) (r : Reply) (k' : Kernel)
    : Type 0 where
  pub granted : Granted owner n (rights % 2 ^ 32) k r.rdx k'
  pub user : beyond_user_rights rights ≡ 0
  pub frames_within : frames_sum owner k'.ledger ≤ (quota_of owner q).frames
  pub tokens_within : tokens_sum owner k'.ledger ≤ (quota_of owner q).tokens
  pub neighbours :
      (o : ℕ)
      → o ≢ owner
      → (frames_sum o k'.ledger ≡ frames_sum o k.ledger)
        × (tokens_sum o k'.ledger ≡ tokens_sum o k.ledger)

-- From a state that satisfies `IsSound`: a successful `sys_alloc` grants a token with user rights
-- only, within the quota. Afterwards the owner's frames and tokens are at most its limits, and
-- those of every other owner are as before.
pub sys_alloc-Allotted :
    (owner n rights : ℕ) (q : Quotas) (k : Kernel)
    → IsSound k.ledger k.phys
    → (sys_alloc owner n rights q k).0.rax ≡ success
    → Allotted owner n rights q k (sys_alloc owner n rights q k).0 (sys_alloc owner n rights q k).1
sys_alloc-Allotted owner n rights q k v =
    sys_alloc_cases
      (λ (r : Reply × Kernel). r.0.rax ≡ success → Allotted owner n rights q k r.0 r.1) owner n
      rights q k (λ s ne e. absurd (ne e)) (λ _ e. absurd (cc))
      (λ hn user ht hf valid _.
        let g = (xtok_alloc_ram-Outcome owner n (rights % 2 ^ 32) k v).0 valid in
        let usage = owner_usage-sums owner k.ledger k.phys v in
        let k' = (xtok_alloc_ram owner n (rights % 2 ^ 32) k).1 in
        let own = Granted-sums owner n (rights % 2 ^ 32) _ owner k k' g in
        record {
          granted = g;
          user = user;
          frames_within = ground (arith, usage, own);
          tokens_within = ground (arith, usage, own);
          neighbours = λ o ne.
              let other = Granted-sums owner n (rights % 2 ^ 32) _ o k k' g in
              ground (arith, other);
        })

-- From a state that satisfies `IsSound`: a `sys_alloc` that fails leaves the ledger, the bits and
-- the count of free frames as they were and puts no token in rdx.
pub sys_alloc_fails :
    (owner n rights : ℕ) (q : Quotas) (k : Kernel)
    → IsSound k.ledger k.phys
    → (sys_alloc owner n rights q k).0.rax ≢ success
    → ((sys_alloc owner n rights q k).0.rdx ≡ 0) × Refused k (sys_alloc owner n rights q k).1
sys_alloc_fails owner n rights q k v =
    sys_alloc_cases (λ (r : Reply × Kernel). r.0.rax ≢ success → (r.0.rdx ≡ 0) × Refused k r.1)
      owner n rights q k
      (λ s _ _.
        (refl, record { ledger = refl; bits = λ g. refl; free = refl; memory = λ w. inl refl }))
      (λ e _. (refl, (xtok_alloc_ram-Outcome owner n (rights % 2 ^ 32) k v).1 e))
      (λ _ _ _ _ _ ne. absurd (ne refl))

-- `sys_alloc`, whatever it returns, preserves `IsSound`.
pub sys_alloc-IsSound :
    (owner n rights : ℕ) (q : Quotas) (k : Kernel)
    → IsSound k.ledger k.phys
    → let (r, k') = sys_alloc owner n rights q k in IsSound k'.ledger k'.phys
sys_alloc-IsSound owner n rights q k v =
    sys_alloc_cases (λ (r : Reply × Kernel). IsSound r.1.ledger r.1.phys) owner n rights q k
      (λ s _. v) (λ _. xtok_alloc_ram-IsSound owner n _ k v)
      (λ _ _ _ _ _. xtok_alloc_ram-IsSound owner n _ k v)

-- `sys_free`, whatever it returns, preserves `IsSound`.
pub sys_free-IsSound :
    (owner tok : ℕ) (k : Kernel)
    → IsSound k.ledger k.phys
    → let (r, k') = sys_free owner tok k in IsSound k'.ledger k'.phys
unfolding sys_free xtok_release_owned
sys_free-IsSound owner tok k v = release_impl-IsSound tok true true owner k v
