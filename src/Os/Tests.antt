-- ===== src/Os/Tests.antt =====
-- src/os.c on the machine with two threads.
use oslab2_virtualfs.Base.{◌≡◌, arith, ok}
use oslab2_virtualfs.Kmt.{schedule}
use oslab2_virtualfs.Kmt.Tests.{machine, machine-OneRunning, saved_switch, saved_switches}
use oslab2_virtualfs.Os.{irq_timer, interrupt, save}
use oslab2_virtualfs.Os.Context.{Resumes, interrupt-Resumes}

saves : schedule (save 77 machine) ≡ ok saved_switch
unfolding save
saves = saved_switches

interrupt-Resumes_example :
    (interrupt irq_timer 77 machine
      ≡ ok ((saved_switch.thread saved_switch.this_thread).regset, saved_switch))
    × Resumes 77 machine saved_switch
interrupt-Resumes_example =
    interrupt-Resumes irq_timer 77 machine saved_switch tt (omega arith) machine-OneRunning saves
