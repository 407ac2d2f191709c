-- ===== src/System/Samples.antt =====
-- A small system for the tests: a ring of three processes, of which 1 runs.
use ertos.Base.{Ptr, true, false, [], ◌∷◌, write, replicate}
use ertos.Proc.{State, active, run, sleep, Proc, user, Kernel}
use ertos.Syscall.{Sys}

abbrev pub proc : Ptr → State → Proc
proc link s = record {
  link = link;
  back = 0;
  pid = 1;
  state = s;
  regs = replicate 17 6;
  backup_regs = replicate 17 0;
  mode = user;
  stack = 0;
  stack_base = 0;
  name = [];
  event_mask = 0;
  timer = record {
    handler = 0;
    next = 0;
    period = 0;
    oneshot = false;
    done = false;
    active = false;
    last_state = active;
    ticks_wakeup = 90;
    last_ticks_wakeup = 0;
  };
  self = 0x900;
}

abbrev pub kernel : Kernel
kernel = record {
  proc =
      write (write (write (λ _. proc 0 sleep) 1 (proc 2 active)) 2 (proc 3 sleep)) 3 (proc 1 run);
  procs = 1;
  idle_task = 9;
  cur = 1;
  self = 0x900;
  need_reschedule = false;
  sched_enabled = true;
  clkticks = 50;
}

abbrev pub start : Sys
start = record {
  kernel = kernel;
  waits = λ _. record { head = 0; tail = 0; free = 2; size = 2; elems = 0 ∷ 0 ∷ [] };
  alarms = λ _. record { msec = 100; handler = 0; oneshot = true };
  kstats = λ _. 7;
  resets = 0;
}
