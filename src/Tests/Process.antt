-- ===== src/Tests/Process.antt =====
-- The theorem on source/arch/amd64/kernel/xeret/proc.c, for a program that logs a value, asks for
-- two frames and is preempted, on the kernel in which two spaces have a mapping each.
use xasmos.Base.{List, [], ◌∷◌}
use xasmos.Process.{XContext, Proc, Event, trap, irq, empty_result, xctx_init}
use xasmos.Tests.Spaces.{two_mapped}

abbrev entered : XContext
unfolding xctx_init
entered = xctx_init 0x8000000000 0x9000000000

-- rax, rdi and rsi of a syscall.
abbrev calls : XContext
calls = record entered { rax = 2; rdi = 77 }

abbrev asks : XContext
asks = record entered { rax = 4; rdi = 2; rsi = 41 }

abbrev syscall : XContext → Event
syscall c = trap (record { regs = c; vector = 0x80; cs = 35; error = 0 }) 0

abbrev started : Proc
started = record {
  res = empty_result;
  ctx = entered;
  irq_unexpected = 0;
  irq_last = 0;
  vm = two_mapped;
}

-- A stray interrupt, and then the tick of the timer in ring 3.
abbrev interrupts : List Event
interrupts =
    irq (record { regs = asks; vector = 0x51; cs = 35; error = 0 })
    ∷ irq (record { regs = asks; vector = 0x40; cs = 35; error = 0 })
    ∷ []
