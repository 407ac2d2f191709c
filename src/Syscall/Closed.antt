-- ===== src/Syscall/Closed.antt =====
-- What every system call keeps: a property of the kernel that outlasts the few kinds of steps that
-- the calls are made of.
use mathlib.Core.Option
use mathlib.Core.Option.{none-ne-some, some-injective}
use mathlib.Core.Path.{subst}
use ertos.Base.{
  ℕ, zero, suc, ltb, ◌≡◌, refl, Ptr, null, Bool, true, false, Bool-cases, inl, inr, Option, none,
  some, arith, write, ◌==◌, if◌then◌else◌,
}
use ertos.Base.Int.{ℤ, ok, err, is_zero}
use ertos.Proc.{active, run, Proc, Kernel, put}
use ertos.Timers.{request_schedule}
use ertos.Bfifo
use ertos.Bfifo.{Bfifo}
use ertos.Syscall.{
  Sys, Outcome, no_fuel, wild_jump, returned, total, partial, current, doze, sys_wait, wake_loop,
  sys_wake, sys_sleep, sys_yield, notify, event_loop, sys_event_set, sys_event_wait, sys_alarm,
  sys_utt_done, sys_reset, sys_kstat, call, leave, table_size, c_svc,
}

-- The new process differs from the old one in nothing that concerns the ring, the alarm being
-- handled, and who is running.
pub record Tame (p v : Proc) : Type 0 where
  pub link : v.link ≡ p.link
  pub runs : v.state ≡ active → p.state ≡ active
  pub alarm : v.timer.active ≡ p.timer.active
  pub last : v.timer.last_state ≡ p.timer.last_state

-- A property that outlasts a tame change of one process, a request for the scheduler, and
-- a change of `self` or of the clock.
pub record Closed (P : Kernel → Type 0) : Type 0 where
  pub puts : (k : Kernel) (p : Ptr) (v : Proc) → P k → Tame (k.proc p) v → P (put k p v)
  pub asks : (k : Kernel) → P k → P (request_schedule k)
  pub selfs : (k : Kernel) (p : Ptr) → P k → P (record k { self = p })
  pub ticks : (k : Kernel) (n : ℕ) → P k → P (record k { clkticks = n })

notify-Tame : (mask : ℕ) (p : Proc) → Tame p (notify mask p)
unfolding notify
notify-Tame mask p = record {
  link = ground arith;
  runs = ground arith;
  alarm = ground arith;
  last = ground arith;
}

if-leave :
    (b : Bool) (x y : Outcome) → (if b then leave x else leave y) ≡ leave (if b then x else y)
if-leave true x y = refl
if-leave false x y = refl

module _ (P : Kernel → Type 0) (c : Closed P) where
  doze-keeps : (k : Kernel) → P k → P (doze k)
  unfolding doze
  doze-keeps k h =
      c.asks _
        (c.puts k k.cur _ h (record { link = refl; runs = λ z. cc; alarm = refl; last = refl }))

  wake_loop-keeps :
      (n : ℕ) (f : Bfifo) (k : Kernel) (r : Bfifo × Kernel) → P k → wake_loop n f k ≡ some r → P r.1
  unfolding wake_loop
  wake_loop-keeps zero f k r h e = absurd (none-ne-some _ e)
  wake_loop-keeps (suc n) f k r h e = elim (Bool-cases ((Bfifo.dequeue f).0 == null)) [
    | inl done ↦ subst (λ (r : Bfifo × Kernel). P r.1) (some-injective _ _ (rw done at e)) h
    | inr more ↦
        let p = (Bfifo.dequeue f).0 in
        wake_loop-keeps n (Bfifo.dequeue f).1 _ r
          (c.puts k p (record (k.proc p) { state = run }) h
            (record { link = refl; runs = λ z. cc; alarm = refl; last = refl }))
          (rw more at e)
  ]

  event_loop-keeps :
      (n mask : ℕ) (p : Ptr) (hit : Bool) (k : Kernel) (r : Bool × Kernel)
      → P k
      → event_loop n mask p hit k ≡ some r
      → P r.1
  unfolding event_loop
  event_loop-keeps zero mask p hit k r h e = absurd (none-ne-some _ e)
  event_loop-keeps (suc n) mask p hit k r h e = elim (Bool-cases (p == k.cur)) [
    | inl done ↦ subst (λ (r : Bool × Kernel). P r.1) (some-injective _ _ (rw done at e)) h
    | inr more ↦
        event_loop-keeps n mask _ _ _ r (c.puts k p _ h (notify-Tame mask (k.proc p)))
          (rw more at e)
  ]

  if-keeps : (b : Bool) (k k' : Kernel) → P k → P k' → P (if b then k else k')
  if-keeps true k k' h h' = h
  if-keeps false k k' h h' = h'

  -- What every system call that returns leaves.
  abbrev Keeps : Outcome → Type 0
  Keeps (returned rc s) = P s.kernel
  Keeps no_fuel = Unit
  Keeps wild_jump = Unit

  if-Keeps :
      (b : Bool) (x y : Outcome)
      → Keeps (leave x)
      → Keeps (leave y)
      → Keeps (leave (if b then x else y))
  if-Keeps true x y hx hy = hx
  if-Keeps false x y hx hy = hy

  total-Keeps : (r : ℤ × Sys) → P r.1.kernel → Keeps (leave (total r))
  total-Keeps r h = c.selfs r.1.kernel _ h

  partial-Keeps :
      {A : Type 0} (o : Option A) (g : A → ℤ × Sys)
      → ((a : A) → o ≡ some a → P (g a).1.kernel)
      → Keeps (leave (partial (Option.map g o)))
  partial-Keeps none g h = tt
  partial-Keeps (some a) g h = total-Keeps (g a) (h a refl)

  if-result :
      (b : Bool) (x y : ℤ × Sys) → P x.1.kernel → P y.1.kernel → P (if b then x else y).1.kernel
  if-result true x y hx hy = hx
  if-result false x y hx hy = hy

  sys_wait-keeps : (s : Sys) (q : Ptr) → P s.kernel → P (sys_wait s q).1.kernel
  unfolding sys_wait
  sys_wait-keeps s q h =
      if-result (q == null) _ _ h
        (if-result (is_zero (Bfifo.queue (s.waits q) s.kernel.cur).0) _ _ (doze-keeps s.kernel h) h)

  sys_wake-Keeps :
      (n : ℕ) (s : Sys) (q : Ptr) → P s.kernel → Keeps (leave (partial (sys_wake n s q)))
  unfolding sys_wake
  sys_wake-Keeps n s q h =
      partial-Keeps (wake_loop n (s.waits q) s.kernel) _
        (λ r e. wake_loop-keeps n (s.waits q) s.kernel r h e)

  sys_event_set-Keeps :
      (n : ℕ) (s : Sys) (mask : ℕ) → P s.kernel → Keeps (leave (partial (sys_event_set n s mask)))
  unfolding sys_event_set
  sys_event_set-Keeps n s mask h =
      partial-Keeps (event_loop n mask (current s.kernel).link false s.kernel) _ (λ r e.
        let h' = event_loop-keeps n mask _ false s.kernel r h e in
        if-keeps r.0 _ _ (c.asks r.1 h') h')

  -- The current process changed in its timer or its state.
  own : (k : Kernel) (v : Proc) → P k → Tame (current k) v → P (put k k.cur v)
  own k v h t = c.puts k k.cur v h t

  call-Keeps : (s : Sys) → P s.kernel → (fuel num arg : ℕ) → Keeps (leave (call fuel s num arg))
  unfolding call sys_sleep sys_yield sys_event_wait sys_alarm sys_utt_done sys_reset sys_kstat
  call-Keeps s h fuel num arg =
      let k = s.kernel in
      if-Keeps (num == 0) _ _ (total-Keeps (sys_wait s arg) (sys_wait-keeps s arg h)) (
        if-Keeps (num == 1) _ _ (sys_wake-Keeps fuel s arg h) (
          if-Keeps (num == 2) _ _
            (total-Keeps (sys_sleep s arg) (
              c.asks _
                (own k _ h (record { link = refl; runs = λ z. cc; alarm = refl; last = refl }))))
            (if-Keeps (num == 3) _ _ (total-Keeps (sys_yield s) (c.asks k h)) (
              if-Keeps (num == 4) _ _ (sys_event_set-Keeps fuel s arg h) (
                if-Keeps (num == 5) _ _
                  (total-Keeps (sys_event_wait s arg) (
                    doze-keeps _ (
                      own k _ h
                        (record { link = refl; runs = λ z. z; alarm = refl; last = refl }))))
                  (if-Keeps (num == 6) _ _
                    (total-Keeps (sys_alarm s arg) (
                      own k _ h (record { link = refl; runs = λ z. z; alarm = refl; last = refl })))
                    (if-Keeps (num == 7) _ _
                      (total-Keeps (sys_utt_done s) (
                        c.asks _ (
                          own k _ h
                            (record { link = refl; runs = λ z. z; alarm = refl; last = refl }))))
                      (if-Keeps (num == 8) _ _ (total-Keeps (sys_reset s) h)
                        (if-Keeps (num == 9) _ _ (total-Keeps (sys_kstat s arg) h) tt)))))))))

  -- Every system call that returns keeps a closed property, whatever its number and its argument.
  pub c_svc-keeps :
      (fuel : ℕ) (kernel_self : Ptr) (s : Sys) (num arg : ℕ) {rc : ℤ} {s' : Sys}
      → P s.kernel
      → c_svc fuel kernel_self s num arg ≡ returned rc s'
      → P s'.kernel
  unfolding c_svc
  c_svc-keeps fuel ks s num arg {s'} h e =
      let entered = c.selfs s.kernel ks h in
      let s1 : Sys = record s { kernel = record (s.kernel) { self = ks } } in
      subst Keeps e (
        rw (if-leave (ltb table_size num) (returned err s1) (call fuel s1 num arg)) (
          if-Keeps (ltb table_size num) _ _ (c.selfs s1.kernel _ entered)
            (call-Keeps s1 entered fuel num arg)))

  woken_keeps :
      (s : Sys) (q : Ptr) (o : Option (Bfifo × Kernel)) (r : ℤ × Sys)
      → ((w : Bfifo × Kernel) → o ≡ some w → P w.1)
      → Option.map (λ (f, k). (ok, record s { waits = write s.waits q f; kernel = k })) o ≡ some r
      → P r.1.kernel
  woken_keeps s q none r h e = absurd (none-ne-some _ e)
  woken_keeps s q (some w) r h e =
      subst (λ (r : ℤ × Sys). P r.1.kernel) (some-injective _ _ e) (h w refl)

  -- A wake-up that ends keeps it too, as an interrupt handler calls it.
  pub sys_wake-keeps :
      (n : ℕ) (s : Sys) (q : Ptr) {rc : ℤ} {s' : Sys}
      → P s.kernel
      → sys_wake n s q ≡ some (rc, s')
      → P s'.kernel
  unfolding sys_wake
  sys_wake-keeps n s q {rc} {s'} h e =
      woken_keeps s q (wake_loop n (s.waits q) s.kernel) (rc, s')
        (λ w e'. wake_loop-keeps n (s.waits q) s.kernel w h e') e
