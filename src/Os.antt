-- ===== src/Os.antt =====
-- src/os.c: what an interrupt does to the threads.
use oslab2_virtualfs.Base.{ℕ, ◌==◌, Outcome, ok, halted, ◌>>=◌, ◌>>◌, assert, if◌then◌else◌}
use oslab2_virtualfs.Kmt.{Kmt, running, set_thread, schedule}
pub mod Context
mod Tests

-- The events of the abstract machine that `os_interrupt` tells apart.
pub data Event : Type 0 where
  irq_timer : Event
  irq_iodev : Event
  yielded : Event
  error : Event
  unrecognized : Event

-- `if (this_thread != NULL) this_thread->regset = regs;`
pub save : ℕ → Kmt → Kmt
save regs s =
    if s.this_thread == 0
    then s
    else set_thread s.this_thread (record (s.thread s.this_thread) { regset = regs }) s

-- `os_interrupt` after its `switch`.
pub dispatch : ℕ → Kmt → Outcome (ℕ × Kmt)
dispatch regs s = do
  s1 ← schedule (save regs s)
  assert ((s1.thread s1.this_thread).status == running)
  ok ((s1.thread s1.this_thread).regset, s1)

-- `os_interrupt`: the context to return to, and the kernel.
pub interrupt : Event → ℕ → Kmt → Outcome (ℕ × Kmt)
interrupt irq_timer regs s = dispatch regs s
interrupt irq_iodev regs s = dispatch regs s
interrupt yielded regs s = dispatch regs s
interrupt error regs s = halted 1
interrupt unrecognized regs s = halted 1
