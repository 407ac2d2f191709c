-- ===== src/Sched/Check.antt =====
-- `check_timers` on one process.
use ertos.Base.{true}
use ertos.Base.{ℕ, ◌<◌, ◌≤◌, ◌≡◌, ◌≢◌, ◌⊎◌, false, Ptr, arith}
use ertos.Proc.{active, run, sleep, Proc, never}
use ertos.Timers.{handle_task_timer, handle_task_timer_done}
use ertos.Sched.{check_timers}

-- The alarm of the process is set, not being handled, and due.
abbrev pub Tripped : ℕ → Proc → Type 0
Tripped clkticks p = (0 < p.timer.next) × (p.timer.active ≡ false) × (p.timer.next ≤ clkticks)

module _ (trampoline : Ptr) (clkticks : ℕ) (p : Proc) where
  -- The ring is not touched.
  pub link-check_timers : (check_timers trampoline clkticks p).link ≡ p.link
  unfolding check_timers handle_task_timer handle_task_timer_done
  link-check_timers = ground arith

  -- A process with a due alarm becomes runnable in its handler, whatever state it is in: a
  -- sleeping process, and a killed one too.
  pub check_timers-Tripped :
      Tripped clkticks p
      → check_timers trampoline clkticks p ≡ handle_task_timer trampoline clkticks p
  unfolding check_timers
  check_timers-Tripped h = ground arith

  -- A sleeper with no alarm about it sleeps on exactly until `ticks_wakeup`.
  pub check_timers-sleep :
      p.state ≡ sleep
      → p.timer.next ≡ 0
      → p.timer.active ≡ false
      → ((clkticks < p.timer.ticks_wakeup) × (check_timers trampoline clkticks p ≡ p))
        ⊎ ((p.timer.ticks_wakeup ≤ clkticks)
            × ((check_timers trampoline clkticks p).state ≡ run)
            × ((check_timers trampoline clkticks p).timer.ticks_wakeup ≡ never))
  unfolding check_timers
  check_timers-sleep s n a = ground arith

  -- Nothing becomes the running process here, and no alarm that is being handled will restore the
  -- running state.
  pub check_timers-ne-active :
      p.state ≢ active
      → (p.timer.active ≡ true → p.timer.last_state ≢ active)
      → let q = check_timers trampoline clkticks p in
        (q.state ≢ active) × (q.timer.active ≡ true → q.timer.last_state ≢ active)
  unfolding check_timers handle_task_timer handle_task_timer_done
  check_timers-ne-active s l = ground arith
