-- ===== src/Process/Laws.antt =====
-- What a run of a program in ring 3 (proc.c) does to the kernel.
use xasmos.Base.{
  ◌^◌, ◌<◌, ◌≤◌, ◌≡◌, ◌&&◌, Option, some, List, [], ◌∷◌, ◌==◌, Bool, true, false, none, ◌||◌, ◌%◌,
}
use xasmos.Paging.Coherent.{IsCoherent}
use xasmos.Process.{Proc, Hook, resume, leave, log_max, Event, trap, irq, lapic_timer_vec}

-- The state of the kernel during a run.
pub record IsRun (p : Proc) : Type 0 where
  pub coherent : IsCoherent p.vm
  pub logged : p.res.log_n ≤ log_max

-- The registers of a trap are words.
abbrev pub IsEvent : Event → Type 0
IsEvent (trap f cr2) = f.regs.rdi < 2 ^ 64
IsEvent (irq f) = f.regs.rdi < 2 ^ 64

abbrev HookRun : Hook → Type 0
HookRun (resume c p) = IsRun p
HookRun (leave p) = IsRun p

-- A tick of the timer that finds the program in ring 3.
abbrev pub is_tick : Event → Bool
is_tick (trap f cr2) = false
is_tick (irq f) = (f.vector == lapic_timer_vec) && (f.cs % 4 == 3)

abbrev pub has_tick : List Event → Bool
has_tick [] = false
has_tick (e ∷ rest) = is_tick e || has_tick rest

-- How a run is left, if it is.
pub data RunEnd : Option Proc → Type 0 where
  on : RunEnd none
  left : (p : Proc) → IsRun p → RunEnd (some p)

abbrev pub has_ended : Option Proc → Bool
has_ended none = false
has_ended (some p) = true

-- What a run comes to: a sound state if it ends, and an end if a tick is delivered.
abbrev pub RunOutcome : Bool → List Event → Option Proc → Type 0
RunOutcome armed events r = RunEnd r × (armed && has_tick events ≡ true → has_ended r ≡ true)
