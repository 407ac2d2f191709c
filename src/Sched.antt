-- ===== src/Sched.antt =====
-- kernel/sched.c: the ring of processes, the choice of the next one, and the entry of new ones.
pub mod Check
pub mod Ring
pub mod Choice
pub mod Sound
pub mod Killed
pub mod Cycle
pub mod Round
mod Tests
use mathlib.Core.Option
use ertos.Base.{
  ℕ, zero, suc, Bool, true, false, ◌&&◌, not, Ptr, null, write, Option, none, some, ltb, leb, ◌==◌,
  if◌then◌else◌,
}
use ertos.Proc.{State, active, run, sleep, Proc, Kernel, put, never}
use ertos.Timers.{handle_task_timer, handle_task_timer_done}

-- Equality of states.
abbrev pub is_run : State → Bool
is_run run = true
is_run _ = false

abbrev pub is_sleep : State → Bool
is_sleep sleep = true
is_sleep _ = false

abbrev pub is_active : State → Bool
is_active active = true
is_active _ = false

-- The last part of `check_timers`: a sleeper whose time has come may run.
pub wake_sleeper : ℕ → Proc → Proc
wake_sleeper clkticks p =
    if is_sleep p.state && leb p.timer.ticks_wakeup clkticks
    then record p { state = run; timer = record (p.timer) { ticks_wakeup = never } }
    else p

-- `check_timers`
pub check_timers : (trampoline : Ptr) → ℕ → Proc → Proc
unfolding wake_sleeper
check_timers trampoline clkticks p =
    if ltb 0 p.timer.next && not p.timer.active
    then (if leb p.timer.next clkticks
        then handle_task_timer trampoline clkticks p
        else wake_sleeper clkticks p)
    else if p.timer.active && p.timer.done
    then wake_sleeper clkticks (handle_task_timer_done p)
    else wake_sleeper clkticks p

-- `swtch`
pub swtch : Kernel → Ptr → Kernel
swtch k next =
    let p = record (k.proc next) { state = active } in
    record k { proc = write k.proc next p; cur = next; self = p.self }

-- The loop of `schedule` from `p` on, `op` being where it began; on fuel.
pub scan : (trampoline : Ptr) → ℕ → (op p : Ptr) → Kernel → Option (Ptr × Kernel)
scan trampoline zero op p k = none
scan trampoline (suc n) op p k =
    let k' = put k p (check_timers trampoline k.clkticks (k.proc p)) in
    let next = (k'.proc p).link in
    let rest = scan trampoline n op next k' in
    if is_run (k'.proc p).state
    then some (p, k')
    else if next == op
    then some (k.idle_task, k')
    else rest

-- `cur` leaves the CPU: the state that it is left in.
pub demote : Kernel → Kernel
demote k =
    if k.cur == k.idle_task
    then put k k.cur (record (k.proc k.cur) { state = sleep })
    else if is_active (k.proc k.cur).state
    then put k k.cur (record (k.proc k.cur) { state = run })
    else k

-- Where the search starts.
pub first : Kernel → Ptr
first k =
    if k.cur == null then k.procs else if k.cur == k.idle_task then k.procs else (k.proc k.cur).link

-- What follows the choice: `swtch`, and the request is served.
pub finish : Ptr × Kernel → Kernel
unfolding swtch
finish (next, k) = record (swtch k next) { need_reschedule = false }

-- `cur` before the search.
pub settle : Kernel → Kernel
unfolding demote
settle k = if k.cur == null then k else demote k

-- `schedule`, with fuel for its loop.
pub schedule : (trampoline : Ptr) → ℕ → Kernel → Option Kernel
unfolding settle finish first
schedule trampoline fuel k =
    if k.procs == null
    then some (finish (k.idle_task, k))
    else Option.map finish (scan trampoline fuel (first (settle k)) (first (settle k)) (settle k))
