-- ===== src/Syscall/Tests.antt =====
-- System calls of process 1; 2 waits for events, 3 waits on the completion 0x700.
use ertos.Base.{ℕ, Ptr, true, false, [], ◌∷◌, arith, write, replicate}
use ertos.Bfifo.{Bfifo}
use ertos.Bfifo.Valid.{IsValid}
use ertos.Proc.{State, sleep, active, Proc, Timer, user, Kernel}
use ertos.Sched.Sound.{IsSound}
use ertos.Syscall.{Sys}

abbrev timer : Timer
timer = record {
  handler = 0;
  next = 0;
  period = 0;
  oneshot = false;
  done = false;
  active = false;
  last_state = active;
  ticks_wakeup = 90;
  last_ticks_wakeup = 0;
}

abbrev proc : Ptr → State → ℕ → Proc
proc link s mask = record {
  link = link;
  back = 0;
  pid = 1;
  state = s;
  regs = replicate 17 6;
  backup_regs = replicate 17 0;
  mode = user;
  stack = 0;
  stack_base = 0;
  name = [];
  event_mask = mask;
  timer = timer;
  self = 0x900;
}

abbrev kernel : Kernel
kernel = record {
  proc =
      write (write (write (λ _. proc 0 sleep 0) 1 (proc 2 active 0)) 2 (proc 3 sleep 6)) 3
        (proc 1 sleep 0);
  procs = 1;
  idle_task = 9;
  cur = 1;
  self = 0x900;
  need_reschedule = false;
  sched_enabled = true;
  clkticks = 50;
}

-- One process waits in a queue of two slots.
abbrev queue : Bfifo
queue = record { head = 0; tail = 1; free = 1; size = 2; elems = 3 ∷ 0 ∷ [] }

abbrev demo : Sys
demo = record {
  kernel = kernel;
  waits = λ _. queue;
  alarms = λ _. record { msec = 100; handler = 0; oneshot = true };
  kstats = λ _. 7;
  resets = 0;
}

queue-IsValid : IsValid queue
queue-IsValid = omega arith

demo-IsSound : IsSound kernel
unfolding write
demo-IsSound = record {
  has_cur = omega arith;
  only_cur = λ a e. ground arith;
  last = λ a. ground arith;
  idle_alone = omega arith;
  has_idle = omega arith;
}

-- SYS_YIELD
abbrev yielded : Sys
yielded = record demo { kernel = record kernel { self = 0x900; need_reschedule = true } }
