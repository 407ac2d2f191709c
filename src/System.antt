-- ===== src/System.antt =====
-- The kernel from the outside: what may happen to it, one step at a time, in any order. The steps
-- are the clock interrupt of kernel/timers.c, an interrupt handler that wakes who waits, a system
-- call through c_svc of kernel/syscall.c, a page fault of the current process, the scheduler of
-- kernel/sched.c, and the current process as it runs: it may change its registers, and the
-- structures that it shares with the kernel, which are alarms, completions and statistics. Its
-- other memory is not part of the state; a process that writes to the kernel's own is left out. A
-- system call with the number of entries of the table jumps into the unknown, so that there is no
-- step behind it.
pub mod Reach
pub mod Samples
mod Tests
use ertos.Base.{ℕ, ◌≡◌, Ptr, List, Store, some}
use ertos.Base.Int.{ℤ}
use ertos.Proc.{Kernel, put}
use ertos.Bfifo.{Bfifo}
use ertos.Timers.{timer_int}
use ertos.Sched.{schedule}
use ertos.Syscall.{Sys, Alarm, current, sys_wake, returned, c_svc}
use ertos.Irq.{user_page_fault}

-- A step, for the address of the kernel's own `struct self`, that of the trampoline, and the
-- scheduler's fuel.
pub data Step (kernel_self trampoline fuel : ℕ) (s s' : Sys) : Type 0 where
  ticked : s' ≡ record s { kernel = timer_int s.kernel } → Step kernel_self trampoline fuel s s'
  woke :
      (n : ℕ) (c : Ptr) (rc : ℤ)
      → sys_wake n s c ≡ some (rc, s')
      → Step kernel_self trampoline fuel s s'
  called :
      (n num arg : ℕ) (rc : ℤ)
      → c_svc n kernel_self s num arg ≡ returned rc s'
      → Step kernel_self trampoline fuel s s'
  faulted :
      s' ≡ record s { kernel = user_page_fault s.kernel } → Step kernel_self trampoline fuel s s'
  scheduled :
      (k : Kernel)
      → schedule trampoline fuel s.kernel ≡ some k
      → s' ≡ record s { kernel = k }
      → Step kernel_self trampoline fuel s s'
  ran :
      (regs : List ℕ) (alarms : Store Alarm) (waits : Store Bfifo) (kstats : Store ℕ)
      → s' ≡ record s {
        kernel = put s.kernel s.kernel.cur (record (current s.kernel) { regs = regs });
        alarms = alarms;
        waits = waits;
        kstats = kstats;
      }
      → Step kernel_self trampoline fuel s s'

-- Any number of steps.
pub data Steps (kernel_self trampoline fuel : ℕ) : Sys → Sys → Type 0 where
  done : (s : Sys) → Steps kernel_self trampoline fuel s s
  then_ :
      (s s' s'' : Sys)
      → Step kernel_self trampoline fuel s s'
      → Steps kernel_self trampoline fuel s' s''
      → Steps kernel_self trampoline fuel s s''
