-- ===== src/Sched/Killed.antt =====
-- What becomes of a process that `user_page_fault` kills.
use ertos.Base.{
  ℕ, ◌≡◌, ◌≢◌, ◌<◌, ◌∙◌, sym, ap, Ptr, false, List, [], ◌∷◌, some, arith, length, write, Bool-cases,
  inl, inr,
}
use ertos.Proc.{Proc, Kernel, killed}
use ertos.Sched.{schedule, settle, first, check_timers, wake_sleeper, demote, is_run, is_active}
use ertos.Sched.Ring.{first_ready, ready}
use ertos.Sched.Choice.{IsRing, schedule-first_ready}
use ertos.Irq.{user_page_fault}

-- A process that is not ready and not idle is not chosen.
first_ready-ne :
    (t : Ptr) (k : Kernel) (x : Ptr) (xs : List Ptr)
    → ready t k x ≡ false
    → k.idle_task ≢ x
    → first_ready t k xs ≢ x
first_ready-ne t k x [] r i = i
first_ready-ne t k x (y ∷ ys) r i = elim (Bool-cases (ready t k y)) [
  | inl go ↦ rw go (λ e. let same = ap (ready t k) e in cc)
  | inr skip ↦ rw skip (first_ready-ne t k x ys r i)
]

-- Without an alarm, a killed process stays killed when its timers are looked at.
check_timers-killed :
    (t : Ptr) (n : ℕ) (p : Proc)
    → p.state ≡ killed
    → p.timer.next ≡ 0
    → p.timer.active ≡ false
    → is_run (check_timers t n p).state ≡ false
unfolding check_timers wake_sleeper
check_timers-killed t n p s m a = ground (arith, s, m, a)

settle_same :
    (k : Kernel) → k.cur ≢ k.idle_task → is_active (k.proc k.cur).state ≡ false → settle k ≡ k
unfolding settle demote
settle_same k ne h = ground (arith, h)

fault_cur :
    (k : Kernel)
    → let kf = user_page_fault k in
      (kf.cur ≡ k.cur)
      × (kf.idle_task ≡ k.idle_task)
      × ((kf.proc k.cur).state ≡ killed)
      × ((kf.proc k.cur).timer.next ≡ (k.proc k.cur).timer.next)
      × ((kf.proc k.cur).timer.active ≡ (k.proc k.cur).timer.active)
unfolding user_page_fault write
fault_cur k = ground arith

-- A process other than the idle task that faults while it has no alarm: the next `schedule` ends
-- and chooses another one.
pub schedule-user_page_fault :
    (t : Ptr) (fuel : ℕ) (k : Kernel) (xs : List Ptr)
    → IsRing (user_page_fault k) xs
    → length xs < fuel
    → k.cur ≢ k.idle_task
    → (k.proc k.cur).timer.next ≡ 0
    → (k.proc k.cur).timer.active ≡ false
    → (k' : Kernel) × (schedule t fuel (user_page_fault k) ≡ some k') × (k'.cur ≢ k.cur)
schedule-user_page_fault t fuel k xs ring lt ne m a =
    let kf = user_page_fault k in
    let (k', done, runs) = schedule-first_ready t fuel kf xs ring lt in
    let (same_cur, same_idle, dead, next, act) = fault_cur k in
    let same =
      settle_same kf (λ e. ne (sym same_cur ∙ e ∙ same_idle))
        (ap (λ c. is_active (kf.proc c).state) same_cur ∙ ap is_active dead) in
    let idle = check_timers-killed t kf.clkticks (kf.proc k.cur) dead (next ∙ m) (act ∙ a) in
    let other = first_ready-ne t kf k.cur (first kf ∷ xs) idle (λ e. ne (sym e ∙ same_idle)) in
    (
      k',
      done,
      λ e. other (ap (λ j. first_ready t j (first kf ∷ xs)) (sym same) ∙ sym runs.chosen ∙ e),
    )
