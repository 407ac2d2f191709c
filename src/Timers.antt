-- ===== src/Timers.antt =====
-- kernel/timers.c: the clock interrupt, and the switch of a process into its alarm handler and
-- back.
pub mod Alarm
mod Tests
use ertos.Base.{ℕ, ◌+◌, ◌%◌, Bool, true, false, Ptr, List, set, if◌then◌else◌, u32_mod}
use ertos.Proc.{State, run, Proc, Timer, Kernel}

-- `request_schedule` of kernel/sched.c
unfoldable pub request_schedule : Kernel → Kernel
request_schedule k = record k {
  need_reschedule = if k.sched_enabled then true else k.need_reschedule;
}

-- `timer_int`
unfoldable pub timer_int : Kernel → Kernel
unfolding request_schedule
timer_int k = request_schedule (record k { clkticks = (k.clkticks + 1) % u32_mod })

-- The three registers that enter the handler; `trampoline` is `user_timer_trampoline`.
pub enter_regs : (trampoline handler : Ptr) → List ℕ → List ℕ
enter_regs trampoline handler r = set (set (set r 1 trampoline) 2 handler) 16 trampoline

-- `handle_task_timer`
unfoldable pub handle_task_timer : (trampoline : Ptr) → ℕ → Proc → Proc
unfolding enter_regs
handle_task_timer trampoline clkticks p = record p {
  backup_regs = p.regs;
  regs = enter_regs trampoline p.timer.handler p.regs;
  timer = timer';
  state = run;
}
  where
    timer' : Timer
    timer' = record (p.timer) {
      done = false;
      active = true;
      next = if p.timer.oneshot then 0 else (clkticks + p.timer.period) % u32_mod;
      last_state = p.state;
      last_ticks_wakeup = p.timer.ticks_wakeup;
    }

-- `handle_task_timer_done`
unfoldable pub handle_task_timer_done : Proc → Proc
handle_task_timer_done p = record p {
  regs = p.backup_regs;
  timer = record (p.timer) { active = false; ticks_wakeup = p.timer.last_ticks_wakeup };
  state = p.timer.last_state;
}
