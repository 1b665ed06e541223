-- ===== src/Xqueue.antt =====
-- source/arch/amd64/syslib/core/xqueue.c: the ring of hardware commands between a producer and a
-- consumer. The fences order what each side sees; here every step sees the steps before it.
use mathlib.Core.List.{append-nil, append_assoc}
use xasmos.Base.{
  ℕ, zero, suc, ◌+◌, ◌-◌, ◌%◌, ◌<◌, ◌≡◌, ◌≢◌, refl, List, [], ◌∷◌, ◌++◌, Option, none, some, arith,
  ◌==◌, ◌↔◌, false, ap, sym, ◌∙◌, some-injective, if◌then◌else◌, if_both, update, add32,
}

abbrev pub ring_size : ℕ
ring_size = 256

pub record Command : Type 0 where
  pub operation_type : ℕ
  pub source_address : ℕ
  pub target_address : ℕ
  pub payload_length : ℕ
  pub security_token : ℕ

pub record Channel : Type 0 where
  pub commands : ℕ → Command
  pub head : ℕ
  pub tail : ℕ

-- (i + 1) & (XQUEUE_RING_SIZE - 1)
abbrev pub next : ℕ → ℕ
next i = add32 i 1 % ring_size

-- `none` is the result -1: the ring is full.
unfoldable pub xqueue_submit_command : Command → Channel → Option Channel
xqueue_submit_command cmd c =
    if next c.tail == c.head
    then none
    else some (record c { commands = update c.commands c.tail cmd; tail = next c.tail })

-- `none` is the result 0: nothing is pending.
unfoldable pub xqueue_poll_completion : Channel → Option (Command × Channel)
xqueue_poll_completion c =
    if c.head == c.tail then none else some (c.commands c.head, record c { head = next c.head })

-- Both indices stay in the ring.
pub record IsChannel (c : Channel) : Type 0 where
  pub head_lt : c.head < ring_size
  pub tail_lt : c.tail < ring_size

-- How many commands wait, and the `n` commands from index `i` on.
abbrev pub pending_count : Channel → ℕ
pending_count c = (c.tail + ring_size - c.head) % ring_size

unfoldable pub slice : ℕ → ℕ → (ℕ → Command) → List Command
slice zero i cells = []
slice (suc n) i cells = cells (i % ring_size) ∷ slice n (i + 1) cells

-- The commands that wait, the oldest first.
unfoldable pub pending : Channel → List Command
pending c = slice (pending_count c) c.head c.commands

slice-suc :
    (n i : ℕ) (cells : ℕ → Command)
    → slice (suc n) i cells ≡ slice n i cells ++ (cells ((i + n) % ring_size) ∷ [])
unfolding slice
slice-suc zero i cells = let e : (i + 0) % ring_size ≡ i % ring_size = omega arith in rw e refl
slice-suc (suc n) i cells =
    let e : (i + suc n) % ring_size ≡ (i + 1 + n) % ring_size = omega arith in
    rw e (ap (◌∷◌ (cells (i % ring_size))) (slice-suc n (i + 1) cells))

slice-update :
    (n i t : ℕ) (cells : ℕ → Command) (cmd : Command)
    → ((k : ℕ) → k < n → (i + k) % ring_size ≢ t)
    → slice n i (update cells t cmd) ≡ slice n i cells
unfolding slice
slice-update zero i t cells cmd apart = refl
slice-update (suc n) i t cells cmd apart =
    let first : update cells t cmd (i % ring_size) ≡ cells (i % ring_size) =
      ground (arith, apart 0) in
    rw
      (
        first,
        slice-update n (i + 1) t cells cmd (λ k p e. apart (k + 1) (omega arith) (omega arith)),
      )
      refl

-- Only the index in the ring counts.
slice_mod :
    (n i j : ℕ) (cells : ℕ → Command)
    → i % ring_size ≡ j % ring_size
    → slice n i cells ≡ slice n j cells
unfolding slice
slice_mod zero i j cells e = refl
slice_mod (suc n) i j cells e = rw (e, slice_mod n (i + 1) (j + 1) cells (omega arith)) refl

slice_step :
    (n i j : ℕ) (cells : ℕ → Command)
    → i < ring_size
    → (i + 1) % ring_size ≡ j % ring_size
    → slice (suc n) i cells ≡ cells i ∷ slice n j cells
unfolding slice
slice_step n i j cells a e =
    let first : i % ring_size ≡ i = omega arith in rw (first, slice_mod n (i + 1) j cells e) refl

-- With both indices in the ring, a command that is submitted waits behind all that waited before
-- it, and the indices stay in the ring.
pub pending-submit :
    (cmd : Command) (c c' : Channel)
    → IsChannel c
    → xqueue_submit_command cmd c ≡ some c'
    → (pending c' ≡ pending c ++ (cmd ∷ [])) × IsChannel c'
unfolding xqueue_submit_command pending
pending-submit cmd c c' v e =
    if_both (λ o. o ≡ some c' → (pending c' ≡ pending c ++ (cmd ∷ [])) × IsChannel c')
      (next c.tail == c.head) _ _ (λ _ h. absurd (cc))
      (λ room h.
        let written : record c { commands = update c.commands c.tail cmd; tail = next c.tail }
            ≡ c' =
          some-injective h in
        rw (← written) (appended room, record { head_lt = v.head_lt; tail_lt = omega arith }))
      e
  where
    n : ℕ
    n = pending_count c

    appended :
        (next c.tail == c.head) ≡ false
        → slice
            ((next c.tail + ring_size - c.head) % ring_size)
            c.head
            (update c.commands c.tail cmd)
          ≡ slice n c.head c.commands ++ (cmd ∷ [])
    appended room =
        let longer : (next c.tail + ring_size - c.head) % ring_size ≡ suc n = ground arith in
        let behind : (c.head + n) % ring_size ≡ c.tail = ground arith in
        let last : update c.commands c.tail cmd ((c.head + n) % ring_size) ≡ cmd = ground arith in
        rw (longer, slice-suc n c.head (update c.commands c.tail cmd), last)
          (ap (λ l. l ++ (cmd ∷ []))
            (slice-update n c.head c.tail c.commands cmd (λ k p. ground arith)))

-- With both indices in the ring, a poll that succeeds takes the command that has waited longest,
-- and the indices stay in the ring.
pub pending-poll :
    (cmd : Command) (c c' : Channel)
    → IsChannel c
    → xqueue_poll_completion c ≡ some (cmd, c')
    → (pending c ≡ cmd ∷ pending c') × IsChannel c'
unfolding xqueue_poll_completion pending
pending-poll cmd c c' v e =
    if_both
      (λ (o : Option (Command × Channel)).
        o ≡ some (cmd, c') → (pending c ≡ cmd ∷ pending c') × IsChannel c')
      (c.head == c.tail) _ _ (λ _ h. absurd (cc))
      (λ some_left h.
        let next_lt : next c.head < ring_size = omega arith in
        let taken_cmd : c.commands c.head ≡ cmd =
          ap (λ (r : Command × Channel). r.0) (some-injective h) in
        let rest : record c { head = next c.head } ≡ c' =
          ap (λ (r : Command × Channel). r.1) (some-injective h) in
        rw (← taken_cmd, ← rest)
          (taken some_left, record { head_lt = next_lt; tail_lt = v.tail_lt }))
      e
  where
    taken :
        (c.head == c.tail) ≡ false
        → slice (pending_count c) c.head c.commands
          ≡ c.commands c.head
            ∷ slice ((c.tail + ring_size - next c.head) % ring_size) (next c.head) c.commands
    taken some_left =
        let shorter : pending_count c ≡ suc ((c.tail + ring_size - next c.head) % ring_size) =
          ground arith in
        rw shorter (slice_step _ c.head (next c.head) c.commands v.head_lt (omega arith))

-- With both indices in the ring, a submit fails exactly when 255 commands wait, and a poll finds
-- nothing exactly when none does.
pub submit-poll_fail :
    (cmd : Command) (c : Channel)
    → IsChannel c
    → ((xqueue_submit_command cmd c ≡ none) ↔ (pending_count c ≡ 255))
      × ((xqueue_poll_completion c ≡ none) ↔ (pending_count c ≡ 0))
unfolding xqueue_submit_command xqueue_poll_completion
submit-poll_fail cmd c v =
    ((λ h. ground arith, λ h. ground arith), (λ h. ground arith, λ h. ground arith))

-- Turns of the two sides, in any order: the commands that were submitted and those that were polled.
-- A call that fails changes nothing, so it is no turn.
pub data Turns : Channel → List Command → List Command → Channel → Type 0 where
  stop : {c : Channel} → Turns c [] [] c
  submits :
      {c c' c'' : Channel} {cmd : Command} {ins outs : List Command}
      → xqueue_submit_command cmd c ≡ some c'
      → Turns c' ins outs c''
      → Turns c (cmd ∷ ins) outs c''
  polls :
      {c c' c'' : Channel} {cmd : Command} {ins outs : List Command}
      → xqueue_poll_completion c ≡ some (cmd, c')
      → Turns c' ins outs c''
      → Turns c ins (cmd ∷ outs) c''

-- The ring is first in, first out. From a ring with both indices inside, however submits and polls
-- interleave: the commands that waited at the start, followed by those submitted, are those polled,
-- followed by those that wait at the end.
pub Turns-fifo :
    (c c' : Channel) (ins outs : List Command)
    → IsChannel c
    → Turns c ins outs c'
    → pending c ++ ins ≡ outs ++ pending c'
Turns-fifo c c' ins outs v stop = append-nil (pending c)
Turns-fifo c c'' ins outs v (submits {c' = c'} {cmd = cmd} {ins = rest} e t) =
    let (queue, v') = pending-submit cmd c c' v e in
    sym (append_assoc (pending c) (cmd ∷ []) rest)
    ∙ ap (λ (q : List Command). q ++ rest) (sym queue)
    ∙ Turns-fifo c' c'' rest outs v' t
Turns-fifo c c'' ins outs v (polls {c' = c'} {cmd = cmd} {outs = rest} e t) =
    let (queue, v') = pending-poll cmd c c' v e in
    ap (λ (q : List Command). q ++ ins) queue ∙ ap (◌∷◌ cmd) (Turns-fifo c' c'' ins rest v' t)
