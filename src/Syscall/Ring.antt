-- ===== src/Syscall/Ring.antt =====
-- No system call touches the ring of processes, or puts another one in `cur`.
use ertos.Base.{refl, Ptr, List, arith, write}
use ertos.Proc.{Proc, Kernel, put}
use ertos.Timers.{request_schedule}
use ertos.Sched.Cycle.{IsCycle}
use ertos.Sched.Round.{Linked, Linked-IsCycle}
use ertos.Syscall.Closed.{Tame, Closed}

put-Linked : (k : Kernel) (p : Ptr) (v : Proc) → Tame (k.proc p) v → Linked k (put k p v)
unfolding write
put-Linked k p v t = record { link = λ a. ground (arith, t.link); procs = refl; idle = refl }

module _ (p : Ptr) (ps : List Ptr) where
  put-IsCycle :
      (k : Kernel) (q : Ptr) (v : Proc)
      → IsCycle k p ps
      → Tame (k.proc q) v
      → IsCycle (put k q v) p ps
  put-IsCycle k q v c t = Linked-IsCycle k (put k q v) p ps (put-Linked k q v t) c.cur_in c

  pub IsCycle-Closed : Closed (λ k. IsCycle k p ps)
  unfolding request_schedule
  IsCycle-Closed = record {
    puts = put-IsCycle;
    asks = λ k c.
        Linked-IsCycle k (request_schedule k) p ps
          (record { link = λ a. refl; procs = refl; idle = refl }) c.cur_in c;
    selfs = λ k q c.
        Linked-IsCycle k (record k { self = q }) p ps
          (record { link = λ a. refl; procs = refl; idle = refl }) c.cur_in c;
    ticks = λ k n c.
        Linked-IsCycle k (record k { clkticks = n }) p ps
          (record { link = λ a. refl; procs = refl; idle = refl }) c.cur_in c;
  }
