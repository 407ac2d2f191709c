-- ===== src/Syscall/Sound.antt =====
-- No system call makes a second process the running one.
use ertos.Base.{ℕ, ◌≡◌, Ptr, arith, write}
use ertos.Base.Int.{ℤ}
use ertos.Proc.{Proc, Kernel, put}
use ertos.Timers.{request_schedule}
use ertos.Sched.Sound.{IsSound}
use ertos.Syscall.{Sys, returned, c_svc}
use ertos.Syscall.Closed.{Tame, Closed, c_svc-keeps}

-- A tame change keeps the invariant: it makes no other process than `cur` run.
put-IsSound :
    (k : Kernel) (p : Ptr) (v : Proc) → IsSound k → Tame (k.proc p) v → IsSound (put k p v)
unfolding write
put-IsSound k p v s t = record {
  has_cur = s.has_cur;
  only_cur = λ b e. ground (arith, s.only_cur b, t.runs);
  last = λ b. ground (arith, s.last b, t.alarm, t.last);
  idle_alone = s.idle_alone;
  has_idle = s.has_idle;
}

request_schedule-IsSound : (k : Kernel) → IsSound k → IsSound (request_schedule k)
unfolding request_schedule
request_schedule-IsSound k s = record {
  has_cur = s.has_cur;
  only_cur = s.only_cur;
  last = s.last;
  idle_alone = s.idle_alone;
  has_idle = s.has_idle;
}

self-IsSound : (k : Kernel) (p : Ptr) → IsSound k → IsSound (record k { self = p })
self-IsSound k p s = record {
  has_cur = s.has_cur;
  only_cur = s.only_cur;
  last = s.last;
  idle_alone = s.idle_alone;
  has_idle = s.has_idle;
}

tick-IsSound : (k : Kernel) (n : ℕ) → IsSound k → IsSound (record k { clkticks = n })
tick-IsSound k n s = record {
  has_cur = s.has_cur;
  only_cur = s.only_cur;
  last = s.last;
  idle_alone = s.idle_alone;
  has_idle = s.has_idle;
}

pub IsSound-Closed : Closed IsSound
IsSound-Closed = record {
  puts = put-IsSound;
  asks = request_schedule-IsSound;
  selfs = self-IsSound;
  ticks = tick-IsSound;
}

-- No system call, whatever its number and its argument, leaves a running process beside `cur`.
pub c_svc-IsSound :
    (fuel : ℕ) (kernel_self : Ptr) (s : Sys) (num arg : ℕ) {rc : ℤ} {s' : Sys}
    → IsSound s.kernel
    → c_svc fuel kernel_self s num arg ≡ returned rc s'
    → IsSound s'.kernel
c_svc-IsSound fuel ks s num arg h e = c_svc-keeps IsSound IsSound-Closed fuel ks s num arg h e
