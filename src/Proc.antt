-- ===== src/Proc.antt =====
-- Processes and the kernel's globals: include/sys/proc.h, kernel/sched.c, kernel/timers.c.
-- The processes stand in a store by address; `list` is the link field `next`, which is all of
-- `struct list` that the scheduler reads.
use ertos.Base.{ℕ, Bool, Ptr, Store, List, write}

-- `enum proc_state`
pub data State : Type 0 where
  active run sleep killed : State

-- `enum proc_mode`
pub data Mode : Type 0 where
  user system : Mode

-- The anonymous struct `timer`. `handler` is a code address.
pub record Timer : Type 0 where
  pub handler : Ptr
  pub next : ℕ
  pub period : ℕ
  pub oneshot : Bool
  pub done : Bool
  pub active : Bool
  pub last_state : State
  pub ticks_wakeup : ℕ
  pub last_ticks_wakeup : ℕ

-- `struct proc`. `link` is `list.next` and `back` is `list.prev`; `name` is a list of bytes.
pub record Proc : Type 0 where
  pub link : Ptr
  pub back : Ptr
  pub pid : ℕ
  pub state : State
  pub regs : List ℕ
  pub backup_regs : List ℕ
  pub mode : Mode
  pub stack : Ptr
  pub stack_base : Ptr
  pub name : List ℕ
  pub event_mask : ℕ
  pub timer : Timer
  pub self : Ptr

-- 0xFFFFFFFF, a wake-up time that stands for "never".
abbrev pub never : ℕ
never = 0xFFFFFFFF

-- The globals of the scheduler and the clock.
pub record Kernel : Type 0 where
  pub proc : Store Proc
  pub procs : Ptr
  pub idle_task : Ptr
  pub cur : Ptr
  pub self : Ptr
  pub need_reschedule : Bool
  pub sched_enabled : Bool
  pub clkticks : ℕ

-- `*p = v` on the store of processes.
abbrev pub put : Kernel → Ptr → Proc → Kernel
put k p v = record k { proc = write k.proc p v }
