-- ===== src/Stubs/Asleep.antt =====
-- `sleep` of lib/sleep.c, down to the kernel's function.
use ertos.Base.{
  ℕ, ◌+◌, ◌/◌, ◌%◌, ◌≡◌, ◌≢◌, refl, ap, Ptr, Option, some, u32_mod, write_self, write_ne,
}
use ertos.Proc.{Proc, State}
use ertos.Timers.{request_schedule}
use ertos.Syscall.{Sys, current, c_svc, call, sys_sleep}
use ertos.Stubs
use ertos.Stubs.{syscall, back_with}

-- What `sleep` for a number of milliseconds leaves behind.
pub record Asleep (s : Sys) (period : ℕ) (r : Option (ℕ × Sys)) : Type 0 where
  pub after : Sys
  pub eq : r ≡ some (2, after)
  pub state : (current after.kernel).state ≡ State.sleep
  pub wakeup :
      (current after.kernel).timer.ticks_wakeup ≡ (s.kernel.clkticks + period / 10) % u32_mod
  pub cur : after.kernel.cur ≡ s.kernel.cur
  pub others : (p : Ptr) → p ≢ s.kernel.cur → after.kernel.proc p ≡ s.kernel.proc p

-- `sleep` returns 2, the number of its system call, and not the 0 of the kernel's function. Behind
-- it the current process sleeps until the tick that is the period, in whole ticks of 10 ms, after
-- the present one, modulo 2^32. No other process is changed.
pub sleep-Asleep :
    (fuel : ℕ) (kernel_self : Ptr) (s : Sys) (period : ℕ)
    → Asleep s period (Stubs.sleep fuel kernel_self s period)
unfolding Stubs.sleep syscall back_with c_svc call sys_sleep request_schedule
sleep-Asleep fuel kernel_self s period = record {
  after = _;
  eq = refl;
  state = ap (λ (x : Proc). x.state) (write_self s.kernel.proc s.kernel.cur _);
  wakeup = ap (λ (x : Proc). x.timer.ticks_wakeup) (write_self s.kernel.proc s.kernel.cur _);
  cur = refl;
  others = λ p ne. write_ne s.kernel.proc s.kernel.cur p _ ne;
}
