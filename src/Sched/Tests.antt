-- ===== src/Sched/Tests.antt =====
-- A ring of three processes: 1 runs, 2 sleeps, 3 is on the run queue. 9 is the idle task.

use ertos.Irq.{user_page_fault}
use ertos.Sched.Killed.{schedule-user_page_fault}
use ertos.Base.{◌≡◌, ◌≢◌, refl, Ptr, true, false, [], ◌∷◌, some, arith, Store, write, replicate}
use ertos.Proc.{State, sleep, run, active, killed, Proc, Timer, user, Kernel}
use ertos.Sched.{check_timers, settle, first, schedule}
use ertos.Sched.Ring.{first_ready}
use ertos.Sched.Choice.{IsRing, Runs, schedule-first_ready}
use ertos.Sched.Sound.{IsSound, schedule-IsSound}

abbrev timer : Timer
timer = record {
  handler = 0;
  next = 0;
  period = 0;
  oneshot = false;
  done = false;
  active = false;
  last_state = active;
  ticks_wakeup = 90;
  last_ticks_wakeup = 0;
}

abbrev proc : Ptr → State → Proc
proc link s = record {
  link = link;
  back = 0;
  pid = 1;
  state = s;
  regs = replicate 17 6;
  backup_regs = replicate 17 0;
  mode = user;
  stack = 0;
  stack_base = 0;
  name = [];
  event_mask = 0;
  timer = timer;
  self = 0x900;
}

abbrev store : Store Proc
store = write (write (write (λ _. proc 0 sleep) 1 (proc 2 active)) 2 (proc 3 sleep)) 3 (proc 1 run)

abbrev demo : Kernel
demo = record {
  proc = store;
  procs = 1;
  idle_task = 9;
  cur = 1;
  self = 0x900;
  need_reschedule = true;
  sched_enabled = true;
  clkticks = 50;
}

-- A killed process whose alarm is due.
abbrev victim : Proc
victim = record (proc 2 killed) { timer = record timer { next = 40 } }

demo-IsRing : IsRing demo (3 ∷ 1 ∷ [])
unfolding first write
demo-IsRing = record {
  some_proc = omega arith;
  chain = (refl, (refl, refl));
  distinct = omega arith;
}

demo-IsSound : IsSound demo
unfolding write
demo-IsSound = record {
  has_cur = omega arith;
  only_cur = λ a e. ground arith;
  last = λ a. ground arith;
  idle_alone = omega arith;
  has_idle = omega arith;
}

demo_runs_3 : first_ready 0x400 (settle demo) (first demo ∷ 3 ∷ 1 ∷ []) ≡ 3
unfolding settle first check_timers write
demo_runs_3 = refl

schedule-first_ready_example :
    let ring = first demo ∷ 3 ∷ 1 ∷ [] in
    (k' : Kernel) × (schedule 0x400 3 demo ≡ some k')
    × Runs 0x400 ring (settle demo) (first_ready 0x400 (settle demo) ring) k'
schedule-first_ready_example =
    schedule-first_ready 0x400 3 demo (3 ∷ 1 ∷ []) demo-IsRing (omega arith)

schedule-IsSound_example :
    (k' : Kernel) × (schedule 0x400 3 demo ≡ some k')
    × IsSound k'
    × ((k'.proc k'.cur).state ≡ active)
unfolding first write
schedule-IsSound_example =
    schedule-IsSound 0x400 3 demo (3 ∷ 1 ∷ []) demo-IsSound demo-IsRing refl (omega arith)

faulted-IsRing : IsRing (user_page_fault demo) (3 ∷ 1 ∷ [])
unfolding first write user_page_fault
faulted-IsRing = record {
  some_proc = omega arith;
  chain = (refl, (refl, refl));
  distinct = omega arith;
}

schedule-user_page_fault_example :
    (k' : Kernel) × (schedule 0x400 3 (user_page_fault demo) ≡ some k') × (k'.cur ≢ 1)
unfolding write
schedule-user_page_fault_example =
    schedule-user_page_fault 0x400 3 demo (3 ∷ 1 ∷ []) faulted-IsRing (omega arith) (omega arith)
      refl refl
