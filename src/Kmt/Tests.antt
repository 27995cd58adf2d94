-- ===== src/Kmt/Tests.antt =====
-- src/kmt.c on a concrete machine with two threads.
use oslab2_virtualfs.Base.{
  ℕ, ◌+◌, ◌≡◌, refl, arith, true, Outcome, ok, halted, undefined, unfinished, ◌>>=◌, [], ◌∷◌,
  replicate, pos, none, if◌then◌else◌, ◌==◌,
}
use oslab2_virtualfs.Libc.Rand.{initial, rand}
use oslab2_virtualfs.Kmt.{
  Kmt, Thread, update, schedule, find_ready, switch_to, preempt, check_stack, stack_magic1,
  stack_magic2, max_thread_num,
}
use oslab2_virtualfs.Kmt.Semaphores.{Runs, at_start, then_step, takes, signals, Kept, runs-Kept}
use oslab2_virtualfs.Kmt.Spin.{
  IsSem, Spinlock, Sem, spin_magic, sem_magic, spin_lock, spin_unlock, sem_try, sem_signal, anon,
  IsOpen, Balanced, spin_unlock-spin_lock, sem_lem,
}
use oslab2_virtualfs.Kmt.Schedule.{
  OneRunning, Scheduled, Scanned, find_ready_lem, schedule-Scheduled,
}

abbrev thread_of : ℕ → ℕ → ℕ → Thread
thread_of tid status base = record {
  tid = tid;
  status = status;
  intr_cnt = pos 0;
  stack_start = base;
  stack_end = base + 4096;
  regset = base + 64;
  fd = replicate 16 none;
}

abbrev thread_at : ℕ → Thread
thread_at p =
    if p == 100
    then thread_of 0 2 65536
    else (if p == 200 then thread_of 1 1 131072 else thread_of 0 0 0)

-- Thread 100 runs and thread 200 is ready; every slot of the table holds one of the two.
abbrev pub machine : Kmt
machine = record {
  intr = true;
  this_thread = 100;
  threads = 100 ∷ replicate 31 200;
  thread = thread_at;
  word = λ p.
      if p == 65536 then stack_magic1 else (if p == 131072 then stack_magic1 else stack_magic2);
  rng = initial;
  pmm = record { chk_start = 1; chk_end = 1; mem_table = 255 ∷ [] };
}

abbrev lock : Spinlock
lock = record { magic = spin_magic; name = anon; holder = 0 }

abbrev sem : Sem
sem = record { magic = sem_magic; name = anon; lock = lock; value = pos 3 }

lock-IsOpen : IsOpen lock
lock-IsOpen = record { initialised = refl; unheld = refl }

machine-Balanced : Balanced machine
machine-Balanced = record { counted = (0, refl); flag = refl }

pub machine-OneRunning : OneRunning machine
machine-OneRunning q e = ground arith

spin_unlock-spin_lock_example :
    (spin_lock lock machine >>= λ (lk, s). spin_unlock lk s) ≡ ok (lock, machine)
spin_unlock-spin_lock_example =
    spin_unlock-spin_lock lock machine lock-IsOpen machine-Balanced (omega arith)

sem-IsSem : IsSem sem
sem-IsSem = record { initialised = refl; open_lock = lock-IsOpen; available = 3; counts = refl }

sem_lem_example :
    (sem_signal sem machine ≡ ok (record sem { value = pos 4 }, machine))
    × (sem_try sem machine ≡ ok (true, record sem { value = pos 2 }, machine))
sem_lem_example = sem_lem sem machine sem-IsSem machine-Balanced (omega arith)

-- One takes, and one signals.
run : Runs sem 1 1 sem
run =
    then_step
      (then_step at_start (takes machine machine machine-Balanced (omega arith) sem_lem_taken))
      (signals machine machine machine-Balanced (omega arith)
        (sem_lem (record sem { value = pos 2 }) machine
          (record { initialised = refl; open_lock = lock-IsOpen; available = 2; counts = refl })
          machine-Balanced (omega arith)).0)
  where
    sem_lem_taken : sem_try sem machine ≡ ok (true, record sem { value = pos 2 }, machine)
    sem_lem_taken = (sem_lem sem machine sem-IsSem machine-Balanced (omega arith)).1

runs-Kept_example : Kept sem 3 1 1 sem
runs-Kept_example =
    runs-Kept (record { initialised = refl; open_lock = lock-IsOpen; available = 3; counts = refl })
      run

find_ready_lem_example : Scanned machine 0 (find_ready max_thread_num 0 0 machine)
find_ready_lem_example = find_ready_lem machine 0 (omega arith)

-- The state in an outcome that is `ok`.
abbrev result_or : Kmt → Outcome Kmt → Kmt
result_or d (ok s) = s
result_or d (halted c) = d
result_or d undefined = d
result_or d unfinished = d

abbrev after_switch : Kmt
after_switch = result_or machine (schedule machine)

switches_ok : schedule machine ≡ ok after_switch
unfolding schedule find_ready preempt switch_to check_stack rand
switches_ok = refl

switches_to_200 : after_switch.this_thread ≡ 200
unfolding schedule find_ready preempt switch_to check_stack rand
switches_to_200 = refl

schedule-Scheduled_example : Scheduled machine after_switch
schedule-Scheduled_example = schedule-Scheduled machine after_switch machine-OneRunning switches_ok

-- The machine after the context of its running thread was saved, and what the scheduler makes of it.
abbrev pub saved_machine : Kmt
saved_machine = record machine {
  thread = update thread_at 100 (record (thread_at 100) { regset = 77 });
}

abbrev pub saved_switch : Kmt
saved_switch = result_or saved_machine (schedule saved_machine)

pub saved_switches : schedule saved_machine ≡ ok saved_switch
unfolding schedule find_ready preempt switch_to check_stack rand
saved_switches = refl
