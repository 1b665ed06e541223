-- ===== src/Process.antt =====
-- source/arch/amd64/kernel/xeret/proc.c: the traps of a program in ring 3, and the context that is
-- saved. What the program does between two traps is a parameter: the list of its traps. The switch
-- of stacks and of cr3, the timer and its end-of-interrupt are hardware and not modelled. While a run
-- is in progress, `g_res` and `g_ctx` are set, which the hooks test.
pub mod Laws
use xasmos.Base.{
  ℕ, zero, suc, ◌+◌, ◌-◌, ◌*◌, ◌%◌, ◌^◌, Bool, true, false, not, ◌&&◌, ◌||◌, Option, none, some,
  List, [], ◌∷◌, ltb, leb, ◌==◌, if◌then◌else◌, update, bit_and, bit_or,
}
use xasmos.Paging.Spaces.{XAspace, Vm}
use xasmos.Sys.Calls.{
  Quotas, Status, success, nosys, inval, nomem, badtoken, perm, busy, range, nomap,
}
use xasmos.Sys.Spaces.{Frame, Answer, status, value, xsys_alloc, xsys_info, xsys_resource}

abbrev pub xsys_exit : ℕ
xsys_exit = 1

abbrev pub xsys_log : ℕ
xsys_log = 2

abbrev pub xsys_yield : ℕ
xsys_yield = 3

abbrev pub log_max : ℕ
log_max = 8

abbrev pub rflags_if : ℕ
rflags_if = 0x200

abbrev pub rflags_user_keep : ℕ
rflags_user_keep = 0xCD5

-- The registers of a program.
pub record XContext : Type 0 where
  pub rax : ℕ
  pub rbx : ℕ
  pub rcx : ℕ
  pub rdx : ℕ
  pub rsi : ℕ
  pub rdi : ℕ
  pub rbp : ℕ
  pub r8 : ℕ
  pub r9 : ℕ
  pub r10 : ℕ
  pub r11 : ℕ
  pub r12 : ℕ
  pub r13 : ℕ
  pub r14 : ℕ
  pub r15 : ℕ
  pub rip : ℕ
  pub rsp : ℕ
  pub rflags : ℕ

-- The frame that a trap pushes: the registers, and what the processor says of the trap.
pub record ExcFrame : Type 0 where
  pub regs : XContext
  pub vector : ℕ
  pub cs : ℕ
  pub error : ℕ

-- XPROC_EXIT, XPROC_FAULT, XPROC_PREEMPT, XPROC_YIELD
pub data Reason : Type 0 where
  exit fault preempt yield : Reason

-- `XPROC_EXIT` is 0, which is also what the field holds before the program has left.
pub record XProcResult : Type 0 where
  pub reason : Reason
  pub exit_code : ℕ
  pub vector : ℕ
  pub error : ℕ
  pub rip : ℕ
  pub cr2 : ℕ
  pub log : ℕ → ℕ
  pub log_n : ℕ

-- `*g_res`, `*g_ctx`, `g_irq_unexpected`, `g_irq_last` and the kernel, while a program runs.
pub record Proc : Type 0 where
  pub res : XProcResult
  pub ctx : XContext
  pub irq_unexpected : ℕ
  pub irq_last : ℕ
  pub vm : Vm

-- The code that rax holds, as a 64-bit word.
unfoldable pub status_word : Status → ℕ
status_word success = 0
status_word nosys = 2 ^ 64 - 1
status_word inval = 2 ^ 64 - 2
status_word nomem = 2 ^ 64 - 3
status_word badtoken = 2 ^ 64 - 4
status_word perm = 2 ^ 64 - 5
status_word busy = 2 ^ 64 - 6
status_word range = 2 ^ 64 - 7
status_word nomap = 2 ^ 64 - 8

unfoldable pub answer_word : Answer → ℕ
answer_word (status s) = status_word s
answer_word (value n) = n

-- The hook returns to the program, or leaves it.
pub data Hook : Type 0 where
  resume : XContext → Proc → Hook
  leave : Proc → Hook

unfoldable pub log_value : ℕ → XProcResult → XProcResult
log_value x r =
    if ltb r.log_n log_max
    then record r { log = update r.log r.log_n x; log_n = r.log_n + 1 }
    else r

-- The default of the switch: a resource syscall, or an unknown one.
unfoldable pub other_call : XAspace → Quotas → XContext → Proc → Hook
other_call space q c p =
    let frame : Frame = record { rax = c.rax; rdi = c.rdi; rsi = c.rsi; rdx = c.rdx } in
    let (answer, rdx, vm) = xsys_resource space frame q p.vm in
    if leb xsys_alloc c.rax && leb c.rax xsys_info
    then resume (record c { rax = answer_word answer; rdx = rdx }) (record p { vm = vm })
    else resume (record c { rax = status_word nosys }) p

-- The hook for vector 0x80 and the exceptions of ring 3, while a run is in progress.
unfoldable pub user_hook : XAspace → Quotas → ExcFrame → ℕ → Proc → Hook
user_hook space q f cr2 p =
    let c = f.regs in
    if not (f.vector == 0x80)
    then leave (record p {
      res = record p.res {
        reason = fault;
        vector = f.vector;
        error = f.error;
        rip = c.rip;
        cr2 = cr2;
      };
    })
    else if c.rax == xsys_exit
    then leave (record p { res = record p.res { reason = exit; exit_code = c.rdi; rip = c.rip } })
    else if c.rax == xsys_log
    then resume (record c { rax = 0 }) (record p { res = log_value c.rdi p.res })
    else if c.rax == xsys_yield
    then leave (record p {
      ctx = record c { rax = 0 };
      res = record p.res { reason = yield; rip = c.rip };
    })
    else other_call space q c p

abbrev pub lapic_timer_vec : ℕ
lapic_timer_vec = 0x40

abbrev pub lapic_spurious_vec : ℕ
lapic_spurious_vec = 0xFF

-- The hook for interrupts. A tick of the timer leaves the program if it came from ring 3.
unfoldable pub irq_hook : ExcFrame → Proc → Hook
irq_hook f p =
    if f.vector == lapic_timer_vec
    then (if f.cs % 4 == 3
        then leave
            (record p { ctx = f.regs; res = record p.res { reason = preempt; rip = f.regs.rip } })
        else resume f.regs p)
    else if f.vector == lapic_spurious_vec
    then resume f.regs p
    else resume f.regs
        (record p { irq_unexpected = (p.irq_unexpected + 1) % 2 ^ 64; irq_last = f.vector })

-- What interrupts a program: a trap of its own with cr2, or an interrupt.
pub data Event : Type 0 where
  trap : ExcFrame → ℕ → Event
  irq : ExcFrame → Event

-- The events of a program until it is left; `none` means that it runs on. A program that was entered
-- with RFLAGS.IF clear, as it is without a quantum, gets no interrupt.
unfoldable pub run_events : XAspace → Bool → Quotas → List Event → Proc → Option Proc
run_events space armed q [] p = none
run_events space armed q (irq f ∷ rest) p =
    let missed = run_events space armed q rest p in
    if armed
    then elim (irq_hook f p) [ leave p' ↦ some p' | resume c p' ↦ run_events space armed q rest p' ]
    else missed
run_events space armed q (trap f cr2 ∷ rest) p = elim (user_hook space q f cr2 p) [
  | leave p' ↦ some p'
  | resume c p' ↦ run_events space armed q rest p'
]

abbrev pub empty_result : XProcResult
empty_result = record {
  reason = exit;
  exit_code = 0;
  vector = 0;
  error = 0;
  rip = 0;
  cr2 = 0;
  log = λ _. 0;
  log_n = 0;
}

-- The flags with which a program is entered.
unfoldable pub entry_flags : Bool → ℕ → ℕ
entry_flags armed flags =
    bit_or (bit_or (bit_and flags rflags_user_keep) 2) (if armed then rflags_if else 0)

unfoldable pub xctx_init : ℕ → ℕ → XContext
xctx_init entry user_rsp = record {
  rax = 0;
  rbx = 0;
  rcx = 0;
  rdx = 0;
  rsi = 0;
  rdi = 0;
  rbp = 0;
  r8 = 0;
  r9 = 0;
  r10 = 0;
  r11 = 0;
  r12 = 0;
  r13 = 0;
  r14 = 0;
  r15 = 0;
  rip = entry;
  rsp = user_rsp;
  rflags = 2;
}

-- The quantum in ticks; `none` is the result -1. `per_ms` is what the timer's calibration found.
unfoldable pub xproc_set_quantum_ms : ℕ → ℕ → Option ℕ
xproc_set_quantum_ms ms per_ms =
    if ms == 0
    then some 0
    else if per_ms == 0
    then none
    else if ltb 0xFFFFFFFF (ms * per_ms)
    then none
    else some (ms * per_ms)

-- A run, up to the return of `xproc_enter_asm`. The outer `none` is the result -1, the inner one a
-- program that runs on. `armed` is whether a quantum is set, and `irqs` the counter of unexpected
-- interrupts and the last vector of one.
unfoldable pub xproc_run_ctx :
    Option XAspace → Bool → Quotas → List Event → XContext → ℕ × ℕ → Vm → Option (Option Proc)
xproc_run_ctx none armed q events ctx irqs vm = none
xproc_run_ctx (some space) armed q events ctx irqs vm =
    let entered = record ctx { rflags = entry_flags armed ctx.rflags } in
    let start : Proc = record {
      res = empty_result;
      ctx = entered;
      irq_unexpected = irqs.0;
      irq_last = irqs.1;
      vm = vm;
    } in
    if not space.live then none else some (run_events space armed q events start)

unfoldable pub xproc_run :
    Option XAspace → Bool → Quotas → List Event → ℕ → ℕ → ℕ × ℕ → Vm → Option (Option Proc)
xproc_run space armed q events entry user_rsp irqs vm =
    xproc_run_ctx space armed q events (xctx_init entry user_rsp) irqs vm
