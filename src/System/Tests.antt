-- ===== src/System/Tests.antt =====
-- A ring of three processes, of which 1 runs and is interrupted, and then yields.
use ertos.Syscall.{call, sys_yield}
use ertos.Base.{inr, ℕ, ◌↔◌}
use ertos.Base.{◌≡◌, refl, true, [], ◌∷◌, some, arith, write}
use ertos.Base.Int.{ok}
use ertos.Proc.{active, Kernel}
use ertos.Timers.{timer_int}
use ertos.Sched.{schedule}
use ertos.Syscall.{Sys, c_svc, wild_jump, table_size}
use ertos.System.Samples.{kernel, start}
use ertos.System.{ticked, called, Steps, done, then_}
use ertos.System.Reach.{IsGood, reachable-IsGood}

abbrev later : Sys
later = record start { kernel = record kernel { clkticks = 51; need_reschedule = true } }

start-IsGood : IsGood 1 (2 ∷ 3 ∷ []) kernel
unfolding write
start-IsGood = record {
  sound = record {
    has_cur = omega arith;
    only_cur = λ a e. ground arith;
    last = λ a. ground arith;
    idle_alone = omega arith;
    has_idle = omega arith;
  };
  ring = record {
    cycle = record { chain = (refl, (refl, refl)); distinct = omega arith };
    no_null = refl;
    head_in = omega arith;
    cur_in = inr (omega arith);
  };
}

interrupted_and_yields : Steps 0x800 0x400 3 start later
unfolding timer_int c_svc call sys_yield write
interrupted_and_yields =
    then_ start later later (ticked refl)
      (then_ later later later (called 1 3 0 ok refl) (done later))

reachable-IsGood_example :
    IsGood 1 (2 ∷ 3 ∷ []) later.kernel
    × ((k : Kernel) × (schedule 0x400 3 later.kernel ≡ some k)
        × IsGood 1 (2 ∷ 3 ∷ []) k
        × ((k.proc k.cur).state ≡ active))
    × ((n num arg : ℕ) → (c_svc n 0x800 later num arg ≡ wild_jump) ↔ (num ≡ table_size))
reachable-IsGood_example =
    reachable-IsGood 1 (2 ∷ 3 ∷ []) 0x800 0x400 3 start later (omega arith) start-IsGood
      interrupted_and_yields
