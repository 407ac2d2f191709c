-- ===== src/Syscall/Wake.antt =====
-- `sys_wait` and `sys_wake`: who sleeps on a completion, and who is woken.
use ertos.Base.{sym, ap}
use ertos.Base.{write_ne, ne→==, ◌||◌}
use ertos.Base.{
  ℕ, zero, suc, ◌<◌, ◌≡◌, refl, ◌∙◌, ◌≢◌, ◌⊎◌, inl, inr, Ptr, null, List, [], ◌∷◌, ◌++◌, some,
  arith, write, write_self, count, ◌==◌, if◌then◌else◌,
}
use ertos.Base.Int.{ok, err}
use ertos.Bfifo
use ertos.Bfifo.{Bfifo}
use ertos.Bfifo.Valid.{IsValid, used, dequeue-IsValid, size-dequeue}
use ertos.Bfifo.Refine.{contents, dequeue-cases, queue-cases}
use ertos.Proc.{run, sleep, Proc, Kernel, put}
use ertos.Syscall.{Sys, current, sys_wait, wake_loop, sys_wake}

-- The process as `sys_wake` leaves it, if `waiting` holds it.
abbrev pub woken : List Ptr → Kernel → Ptr → Proc
woken waiting k a = if count a waiting == 0 then k.proc a else record (k.proc a) { state = run }

-- The loop's end: the queue is empty, and the processes it held may run.
pub record Woke (f : Bfifo) (k : Kernel) (f' : Bfifo) (k' : Kernel) : Type 0 where
  pub empty : contents f' ≡ []
  pub valid : IsValid f'
  pub runs : (a : Ptr) → k'.proc a ≡ woken (contents f) k a
  pub rest : k' ≡ record k { proc = k'.proc }

abbrev pub set_run : Kernel → Ptr → Kernel
set_run k p = put k p (record (k.proc p) { state = run })

woken-cons :
    (p : Ptr) (xs : List Ptr) (k : Kernel) (a : Ptr) → woken xs (set_run k p) a ≡ woken (p ∷ xs) k a
unfolding write
woken-cons p xs k a = ground arith

wake_loop_more :
    (fuel : ℕ) (f : Bfifo) (k : Kernel)
    → (Bfifo.dequeue f).0 ≢ null
    → wake_loop (suc fuel) f k ≡ wake_loop fuel (Bfifo.dequeue f).1 (set_run k (Bfifo.dequeue f).0)
unfolding wake_loop
wake_loop_more fuel f k ne = rw (ne→== (Bfifo.dequeue f).0 null ne)

wake_loop-Woke :
    (fuel : ℕ) (f : Bfifo) (k : Kernel)
    → IsValid f
    → count null (contents f) ≡ 0
    → used f < fuel
    → (f' : Bfifo) × (k' : Kernel) × (wake_loop fuel f k ≡ some (f', k')) × Woke f k f' k'
unfolding wake_loop
wake_loop-Woke zero f k v n h = absurd (omega arith)
wake_loop-Woke (suc fuel) f k v n h = elim (dequeue-cases v) [
  | inl (p, same, e, z) ↦
      (f, k, rw p (ground arith), record { empty = e; valid = v; runs = λ a. rw e; rest = refl })
  | inr (e, free, lt) ↦
      let p = (Bfifo.dequeue f).0 in
      let g = (Bfifo.dequeue f).1 in
      let n' : count null (p ∷ contents g) ≡ 0 = ap (count null) (sym e) ∙ n in
      let ne : p ≢ null = ground arith in
      let (f', k', eq, w) =
        wake_loop-Woke fuel g (set_run k p) (dequeue-IsValid v) (omega arith)
          (ground (arith, size-dequeue f)) in
      (
        f',
        k',
        wake_loop_more fuel f k ne ∙ eq,
        record {
          empty = w.empty;
          valid = w.valid;
          runs = λ a. rw e (w.runs a ∙ woken-cons p (contents g) k a);
          rest = w.rest;
        },
      )
]

-- On a valid queue that holds no NULL `sys_wake` ends within as many rounds as processes wait. It
-- leaves the queue empty and every process that waited on it runnable, and returns 0; all other
-- processes and queues are as before.
pub sys_wake_lem :
    (fuel : ℕ) (s : Sys) (c : Ptr)
    → IsValid (s.waits c)
    → count null (contents (s.waits c)) ≡ 0
    → used (s.waits c) < fuel
    → (s' : Sys) × (sys_wake fuel s c ≡ some (ok, s'))
      × (contents (s'.waits c) ≡ [])
      × ((d : Ptr) → d ≢ c → s'.waits d ≡ s.waits d)
      × ((a : Ptr) → s'.kernel.proc a ≡ woken (contents (s.waits c)) s.kernel a)
unfolding sys_wake
sys_wake_lem fuel s c v n h =
    let (f', k', e, w) = wake_loop-Woke fuel (s.waits c) s.kernel v n h in
    (
      record s { waits = write s.waits c f'; kernel = k' },
      rw e,
      rw (write_self s.waits c f') w.empty,
      λ d ne. write_ne s.waits c d f' ne,
      w.runs,
    )

-- `sys_wait` on a valid queue with a free slot puts the current process to sleep and at the end of
-- the queue, and asks for the scheduler if that is enabled; on a full queue, as on NULL, it
-- returns -1, and the process goes on.
pub sys_wait_lem :
    (s : Sys) (c : Ptr)
    → IsValid (s.waits c)
    → let (rc, s') = sys_wait s c in
      ((c ≢ null)
        × (0 < (s.waits c).free)
        × (rc ≡ ok)
        × ((current s'.kernel).state ≡ sleep)
        × (contents (s'.waits c) ≡ contents (s.waits c) ++ (s.kernel.cur ∷ []))
        × (s'.kernel.need_reschedule ≡ (s.kernel.sched_enabled || s.kernel.need_reschedule)))
      ⊎ (((c ≡ null) ⊎ ((s.waits c).free ≡ 0)) × (rc ≡ err) × (s'.kernel ≡ s.kernel))
unfolding sys_wait write
sys_wait_lem s c v = ground (arith, queue-cases v s.kernel.cur)
