-- ===== src/Stubs.antt =====
-- lib/sleep.c and lib/kstat.c: the user side of the system calls, over the trap of
-- lib/syscall_arm.s. The trap and arm_svc_entry of arch/irq.S save `r0` and load it again, so that
-- what a stub returns is the number it put there, and not what the kernel's function answered.
pub mod Asleep
mod Tests
use ertos.Base.{ℕ, ◌/◌, Ptr, Option, none, some}
use ertos.Syscall.{Sys, Outcome, returned, no_fuel, wild_jump, c_svc}

-- `r0` behind the trap; `none` if the kernel does not come back.
unfoldable pub back_with : ℕ → Outcome → Option (ℕ × Sys)
back_with num (returned rc s) = some (num, s)
back_with num no_fuel = none
back_with num wild_jump = none

-- `__syscall`; `fuel` and `kernel_self` are the ones of `c_svc`.
unfoldable pub syscall : (fuel : ℕ) (kernel_self : Ptr) → Sys → (num arg : ℕ) → Option (ℕ × Sys)
unfolding c_svc back_with
syscall fuel kernel_self s num arg = back_with num (c_svc fuel kernel_self s num arg)

-- `wait`
unfoldable pub wait : (fuel : ℕ) (kernel_self : Ptr) → Sys → Ptr → Option (ℕ × Sys)
unfolding syscall
wait fuel kernel_self s c = syscall fuel kernel_self s 0 c

-- `wake`
unfoldable pub wake : (fuel : ℕ) (kernel_self : Ptr) → Sys → Ptr → Option (ℕ × Sys)
unfolding syscall
wake fuel kernel_self s c = syscall fuel kernel_self s 1 c

-- `sleep`, with `ms_to_clkticks`.
unfoldable pub sleep : (fuel : ℕ) (kernel_self : Ptr) → Sys → (period : ℕ) → Option (ℕ × Sys)
unfolding syscall
sleep fuel kernel_self s period = syscall fuel kernel_self s 2 (period / 10)

-- `yield`
unfoldable pub yield : (fuel : ℕ) (kernel_self : Ptr) → Sys → Option (ℕ × Sys)
unfolding syscall
yield fuel kernel_self s = syscall fuel kernel_self s 3 0

-- `event_set`
unfoldable pub event_set : (fuel : ℕ) (kernel_self : Ptr) → Sys → (mask : ℕ) → Option (ℕ × Sys)
unfolding syscall
event_set fuel kernel_self s mask = syscall fuel kernel_self s 4 mask

-- `event_wait`
unfoldable pub event_wait : (fuel : ℕ) (kernel_self : Ptr) → Sys → (mask : ℕ) → Option (ℕ × Sys)
unfolding syscall
event_wait fuel kernel_self s mask = syscall fuel kernel_self s 5 mask

-- `alarm`
unfoldable pub alarm : (fuel : ℕ) (kernel_self : Ptr) → Sys → Ptr → Option (ℕ × Sys)
unfolding syscall
alarm fuel kernel_self s a = syscall fuel kernel_self s 6 a

-- `_user_timer_trampoline_done`
unfoldable pub user_timer_trampoline_done : (fuel : ℕ) (kernel_self : Ptr) → Sys → Option (ℕ × Sys)
unfolding syscall
user_timer_trampoline_done fuel kernel_self s = syscall fuel kernel_self s 7 0

-- `reset`
unfoldable pub reset : (fuel : ℕ) (kernel_self : Ptr) → Sys → Option (ℕ × Sys)
unfolding syscall
reset fuel kernel_self s = syscall fuel kernel_self s 8 0

-- `kstat_get`
unfoldable pub kstat_get : (fuel : ℕ) (kernel_self : Ptr) → Sys → Ptr → Option (ℕ × Sys)
unfolding syscall
kstat_get fuel kernel_self s ptr = syscall fuel kernel_self s 9 ptr
