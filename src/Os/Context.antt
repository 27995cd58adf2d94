-- ===== src/Os/Context.antt =====
-- The contexts that `os_interrupt` of src/os.c saves and returns to.
use oslab2_virtualfs.Base.{
  ℕ, ◌==◌, ◌≡◌, ◌≢◌, sym, ◌∙◌, arith, Outcome, ok, ◌>>=◌, assert, eq→==, if◌then◌else◌,
}
use oslab2_virtualfs.Kmt.{Kmt, running, schedule}
use oslab2_virtualfs.Kmt.Schedule.{OneRunning, schedule-Scheduled, schedule_regset}
use oslab2_virtualfs.Os.{
  Event, irq_timer, irq_iodev, yielded, error, unrecognized, save, dispatch, interrupt,
}

-- The events at which threads are switched.
abbrev pub Switches : Event → Type 0
Switches irq_timer = Unit {0}
Switches irq_iodev = Unit {0}
Switches yielded = Unit {0}
Switches error = ⊥
Switches unrecognized = ⊥

-- Saving a context changes no status.
save_status : (regs : ℕ) (s : Kmt) (q : ℕ) → ((save regs s).thread q).status ≡ (s.thread q).status
unfolding save
save_status regs s q = ground arith

save_this : (regs : ℕ) (s : Kmt) → (save regs s).this_thread ≡ s.this_thread
unfolding save
save_this regs s = ground arith

save_regset :
    (regs : ℕ) (s : Kmt) (q : ℕ)
    → s.this_thread ≢ 0
    → ((save regs s).thread q).regset ≡ (if s.this_thread == q then regs else (s.thread q).regset)
unfolding save
save_regset regs s q ne = ground arith

save-OneRunning : (regs : ℕ) (s : Kmt) → OneRunning s → OneRunning (save regs s)
save-OneRunning regs s one q runs =
    one q (sym (save_status regs s q) ∙ runs) ∙ sym (save_this regs s)

-- What an interrupt comes to, when the scheduler finds the thread of `s'`.
pub record Resumes (regs : ℕ) (s : Kmt) (s' : Kmt) : Type 0 where
  pub one : OneRunning s'
  pub runs : (s'.thread s'.this_thread).status ≡ running
  -- The interrupted thread's context is saved, and the others' are kept.
  pub saved :
      (q : ℕ) → (s'.thread q).regset ≡ (if s.this_thread == q then regs else (s.thread q).regset)

dispatch_lem :
    (regs : ℕ) (s s' : Kmt)
    → (s'.thread s'.this_thread).status ≡ running
    → schedule (save regs s) ≡ ok s'
    → dispatch regs s ≡ ok ((s'.thread s'.this_thread).regset, s')
unfolding dispatch
dispatch_lem regs s s' runs e = rw (e, ◌>>=◌, eq→== _ _ runs, assert, ◌>>=◌)

-- At a timer or device interrupt or a yield, in a state where `this_thread` is not NULL and just this thread is
-- running, when the scheduler finds a thread, the assertion of
-- `os_interrupt` holds, exactly one thread is running, the context of the interrupted thread is saved and those
-- of the others are kept, and the machine returns to the context of the thread that now runs.
pub interrupt-Resumes :
    (ev : Event) (regs : ℕ) (s s' : Kmt)
    → Switches ev
    → s.this_thread ≢ 0
    → OneRunning s
    → schedule (save regs s) ≡ ok s'
    → (interrupt ev regs s ≡ ok ((s'.thread s'.this_thread).regset, s')) × Resumes regs s s'
unfolding interrupt
interrupt-Resumes ev regs s s' switches ne one e =
    let found = schedule-Scheduled (save regs s) s' (save-OneRunning regs s one) e in
    (
      by_event ev switches (dispatch_lem regs s s' found.runs e),
      record {
        one = found.one;
        runs = found.runs;
        saved = λ q. schedule_regset (save regs s) s' e q ∙ save_regset regs s q ne;
      },
    )
  where
    by_event :
        (ev : Event)
        → Switches ev
        → {o : Outcome (ℕ × Kmt)} → dispatch regs s ≡ o
        → interrupt ev regs s ≡ o
    by_event irq_timer w e = e
    by_event irq_iodev w e = e
    by_event yielded w e = e
    by_event error w e = absurd w
    by_event unrecognized w e = absurd w
