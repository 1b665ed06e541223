-- ===== src/Xerlibc/Strings.antt =====
-- source/core/xerlibc/src/str.c. A string is what memory holds from an address up to a zero byte;
-- a loop that needs that byte has a bound on its rounds and gives `none` when it is used up.
use xasmos.Base.{
  ℕ, zero, suc, ◌+◌, ◌%◌, ◌≤◌, ◌<◌, ◌≡◌, ◌≢◌, true, not, ◌&&◌, Option, none, some, ◌==◌,
  if◌then◌else◌, arith, ap, if_both, update,
}
use xasmos.Xerlibc.Memory.{Memory}

-- while (s[n] != '\0') n++
unfoldable pub strlen_from : ℕ → ℕ → ℕ → Memory → Option ℕ
strlen_from zero s n m = none
strlen_from (suc fuel) s n m =
    let rest = strlen_from fuel s (n + 1) m in if m (s + n) == 0 then some n else rest

unfoldable pub strlen : ℕ → ℕ → Memory → Option ℕ
strlen fuel s m = strlen_from fuel s 0 m

-- while (n < maxlen && s[n] != '\0') n++
unfoldable pub strnlen_from : ℕ → ℕ → ℕ → Memory → ℕ
strnlen_from zero s n m = n
strnlen_from (suc left) s n m =
    let rest = strnlen_from left s (n + 1) m in if m (s + n) == 0 then n else rest

unfoldable pub strnlen : ℕ → ℕ → Memory → ℕ
strnlen s maxlen m = strnlen_from maxlen s 0 m

-- The bytes at which the comparison stops: its result is their difference.
unfoldable pub strcmp : ℕ → ℕ → ℕ → Memory → Option (ℕ × ℕ)
strcmp zero a b m = none
strcmp (suc fuel) a b m =
    let rest = strcmp fuel (a + 1) (b + 1) m in
    if not (m a == 0) && (m a == m b) then rest else some (m a, m b)

-- `none` is the result 0 of equal strings.
unfoldable pub strncmp : ℕ → ℕ → ℕ → Memory → Option (ℕ × ℕ)
strncmp a b zero m = none
strncmp a b (suc n) m =
    let rest = strncmp (a + 1) (b + 1) n m in
    if not (m a == m b) then some (m a, m b) else if m a == 0 then none else rest

-- while ((*d++ = *s++) != '\0')
unfoldable pub strcpy : ℕ → ℕ → ℕ → Memory → Option Memory
strcpy zero dst src m = none
strcpy (suc fuel) dst src m =
    let m' = update m dst (m src) in
    let rest = strcpy fuel (dst + 1) (src + 1) m' in if m src == 0 then some m' else rest

-- The second loop of `strncpy`.
unfoldable pub pad : ℕ → ℕ → Memory → Memory
pad zero d m = m
pad (suc n) d m = pad n (d + 1) (update m d 0)

unfoldable pub strncpy : ℕ → ℕ → ℕ → Memory → Memory
strncpy dst src zero m = m
strncpy dst src (suc n) m =
    let rest = strncpy (dst + 1) (src + 1) n (update m dst (m src)) in
    let padded = pad (suc n) dst m in if m src == 0 then padded else rest

-- The address of the byte; the inner `none` is the null pointer.
unfoldable pub strchr : ℕ → ℕ → ℕ → Memory → Option (Option ℕ)
strchr zero s c m = none
strchr (suc fuel) s c m =
    let rest = strchr fuel (s + 1) c m in
    if m s == c % 256 then some (some s) else if m s == 0 then some none else rest

-- `strlen` counts the bytes before the first zero byte: if there is one within the bound, at
-- distance `k`, the result is `k`.
pub strlen_lem :
    (k fuel s : ℕ) (m : Memory)
    → ((i : ℕ) → i < k → m (s + i) ≢ 0)
    → m (s + k) ≡ 0
    → k < fuel
    → strlen fuel s m ≡ some k
unfolding strlen strlen_from
strlen_lem k fuel s m before stop enough = go fuel 0 (omega arith) (omega arith)
  where
    go : (fuel n : ℕ) → n ≤ k → k < fuel + n → strlen_from fuel s n m ≡ some k
    go zero n a b = absurd (omega arith)
    go (suc fuel) n a b =
        let at : n ≡ k → m (s + n) ≡ 0 = λ e. rw e stop in
        let found : (m (s + n) == 0) ≡ true → n ≡ k = λ z. ground (arith, before n) in
        if_both (λ o. o ≡ some k) (m (s + n) == 0) (some n) (strlen_from fuel s (n + 1) m)
          (λ z. ap some (found z)) (λ z. go fuel (n + 1) (ground (arith, at)) (omega arith))
