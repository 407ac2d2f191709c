-- ===== src/Timers/Alarm.antt =====
-- An alarm interrupts a process and gives it back as it was.
use ertos.Base.{◌∙◌, sym}
use ertos.Base.{
  ℕ, ◌≡◌, refl, ◌≢◌, Ptr, arith, false, length, get_or, set, length-set, get_or-set_self,
  get_or-set_ne,
}
use ertos.Proc.{run, Proc}
use ertos.Timers.{handle_task_timer, handle_task_timer_done}

-- What the handler's run may not touch: the saved registers and the saved state.
pub record KeepsSaved (p q : Proc) : Type 0 where
  pub backup_regs : q.backup_regs ≡ p.backup_regs
  pub last_state : q.timer.last_state ≡ p.timer.last_state
  pub last_ticks_wakeup : q.timer.last_ticks_wakeup ≡ p.timer.last_ticks_wakeup

-- After an alarm and its handler, whatever else happened to the process meanwhile, its registers,
-- its state and its wake-up time are those from before the alarm, and it is out of the handler.
pub alarm_round_trip :
    (trampoline : Ptr) (clkticks : ℕ) (p q : Proc)
    → KeepsSaved (handle_task_timer trampoline clkticks p) q
    → let r = handle_task_timer_done q in
      (r.regs ≡ p.regs)
      × (r.state ≡ p.state)
      × (r.timer.ticks_wakeup ≡ p.timer.ticks_wakeup)
      × (r.timer.active ≡ false)
unfolding handle_task_timer handle_task_timer_done
alarm_round_trip t clkticks p q s = ground arith

-- A process that enters its handler is runnable and resumes at the trampoline, with the handler's
-- address as its argument (register slots 1, 2 and 16); the other registers are unchanged.
pub handle_task_timer-regs :
    (trampoline : Ptr) (clkticks : ℕ) (p : Proc) (i : ℕ)
    → length p.regs ≡ 17
    → let q = handle_task_timer trampoline clkticks p in
      (q.state ≡ run)
      × (get_or q.regs 1 0 ≡ trampoline)
      × (get_or q.regs 2 0 ≡ p.timer.handler)
      × (get_or q.regs 16 0 ≡ trampoline)
      × (i ≢ 1 → i ≢ 2 → i ≢ 16 → get_or q.regs i 0 ≡ get_or p.regs i 0)
unfolding handle_task_timer
handle_task_timer-regs t clkticks p i n =
    let h = p.timer.handler in
    let r1 = set p.regs 1 t in
    let r2 = set r1 2 h in
    let n1 : length r1 ≡ 17 = length-set p.regs 1 t ∙ n in
    let n2 : length r2 ≡ 17 = length-set r1 2 h ∙ n1 in
    (
      refl,
      get_or-set_ne r2 16 1 t 0 (omega arith)
          ∙ get_or-set_ne r1 2 1 h 0 (omega arith)
          ∙ get_or-set_self p.regs 1 t 0 (omega arith),
      get_or-set_ne r2 16 2 t 0 (omega arith) ∙ get_or-set_self r1 2 h 0 (omega arith),
      get_or-set_self r2 16 t 0 (omega arith),
      λ a b c.
          get_or-set_ne r2 16 i t 0 (λ e. c (sym e))
          ∙ get_or-set_ne r1 2 i h 0 (λ e. b (sym e))
          ∙ get_or-set_ne p.regs 1 i t 0 (λ e. a (sym e)),
    )
