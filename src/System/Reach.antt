-- ===== src/System/Reach.antt =====
-- What holds of the kernel whatever has happened to it.
use mathlib.Core.Path.{subst}
use ertos.Base.{
  ◌↔◌, ◌⊎◌, inl, inr, arith, ℕ, ◌≡◌, ◌<◌, ◌+◌, ◌%◌, u32_mod, ◌∙◌, refl, sym, Ptr, List, length,
  some,
}
use mathlib.Core.Option.{some-injective}
use ertos.Proc.{active, Kernel}
use ertos.Timers.{timer_int}
use ertos.Sched.{schedule}
use ertos.Sched.Sound.{IsSound}
use ertos.Sched.Cycle.{IsCycle}
use ertos.Sched.Round.{schedule-keeps}
use ertos.Base.Int.{ℤ}
use ertos.Syscall.{Sys, c_svc, returned, wild_jump, table_size}
use ertos.Syscall.Dispatch.{c_svc_numbers}
use ertos.Syscall.Closed.{Closed, c_svc-keeps, sys_wake-keeps}
use ertos.Syscall.Sound.{IsSound-Closed}
use ertos.Syscall.Ring.{IsCycle-Closed}
use ertos.Irq.{user_page_fault}
use ertos.System.{Step, ticked, woke, called, faulted, scheduled, ran, Steps, done, then_}

-- At most the current process runs, and the processes form the ring `p ∷ ps`.
pub record IsGood (p : Ptr) (ps : List Ptr) (k : Kernel) : Type 0 where
  pub sound : IsSound k
  pub ring : IsCycle k p ps

module _ (p : Ptr) (ps : List Ptr) where
  IsGood-Closed : Closed (IsGood p ps)
  IsGood-Closed =
      let s = IsSound-Closed in
      let r = IsCycle-Closed p ps in
      record {
        puts = λ k q v h t. record { sound = s.puts k q v h.sound t; ring = r.puts k q v h.ring t };
        asks = λ k h. record { sound = s.asks k h.sound; ring = r.asks k h.ring };
        selfs = λ k q h. record { sound = s.selfs k q h.sound; ring = r.selfs k q h.ring };
        ticks = λ k n h. record { sound = s.ticks k n h.sound; ring = r.ticks k n h.ring };
      }

  back : (s' t : Sys) → s' ≡ t → IsGood p ps t.kernel → IsGood p ps s'.kernel
  back s' t e h = subst (λ (s : Sys). IsGood p ps s.kernel) (sym e) h

  timer_int-IsGood : (k : Kernel) → IsGood p ps k → IsGood p ps (timer_int k)
  unfolding timer_int
  timer_int-IsGood k h =
      let c = IsGood-Closed in c.asks _ (c.ticks k ((k.clkticks + 1) % u32_mod) h)

  user_page_fault-IsGood : (k : Kernel) → IsGood p ps k → IsGood p ps (user_page_fault k)
  unfolding user_page_fault
  user_page_fault-IsGood k h =
      let c = IsGood-Closed in
      c.asks _
        (c.puts k k.cur _ h (record { link = refl; runs = λ z. cc; alarm = refl; last = refl }))

  module _ (kernel_self trampoline fuel : ℕ) (enough : length ps < fuel) where
    schedule-IsGood :
        (k k' : Kernel) → IsGood p ps k → schedule trampoline fuel k ≡ some k' → IsGood p ps k'
    schedule-IsGood k k' h e =
        let (k1, e1, sound, ring, act) =
          schedule-keeps trampoline fuel k p ps h.sound h.ring enough in
        subst (IsGood p ps) (some-injective k1 k' (sym e1 ∙ e))
          (record { sound = sound; ring = ring })

    Step-IsGood :
        (s s' : Sys)
        → IsGood p ps s.kernel
        → Step kernel_self trampoline fuel s s'
        → IsGood p ps s'.kernel
    Step-IsGood s s' h (ticked e) = back s' _ e (timer_int-IsGood s.kernel h)
    Step-IsGood s s' h (woke n c rc e) = sys_wake-keeps (IsGood p ps) IsGood-Closed n s c h e
    Step-IsGood s s' h (called n num arg rc e) =
        c_svc-keeps (IsGood p ps) IsGood-Closed n kernel_self s num arg h e
    Step-IsGood s s' h (faulted e) = back s' _ e (user_page_fault-IsGood s.kernel h)
    Step-IsGood s s' h (scheduled k e e') = back s' _ e' (schedule-IsGood s.kernel k h e)
    Step-IsGood s s' h (ran regs alarms waits kstats e) =
        let c = IsGood-Closed in
        back s' _ e (
          c.puts s.kernel s.kernel.cur _ h
            (record { link = refl; runs = λ z. z; alarm = refl; last = refl }))

    Steps-IsGood :
        (s s' : Sys)
        → IsGood p ps s.kernel
        → Steps kernel_self trampoline fuel s s'
        → IsGood p ps s'.kernel
    Steps-IsGood s s' h (done _) = h
    Steps-IsGood s s' h (then_ _ t _ now later) = Steps-IsGood t s' (Step-IsGood s t h now) later

returned_not : {rc : ℤ} {s : Sys} → ¬ (returned rc s ≡ wild_jump)
returned_not e = cc

jumps :
    (n : ℕ) (ks : Ptr) (s : Sys) (num arg : ℕ)
    → (c_svc n ks s num arg ≡ wild_jump) ↔ (num ≡ table_size)
jumps n ks s num arg =
    let (below, at, above) = c_svc_numbers n ks s num arg in
    (
      λ j. elim (three num) [
        | inl lt ↦ absurd (below lt j)
        | inr (inl e) ↦ e
        | inr (inr gt) ↦ absurd (returned_not (sym (above gt) ∙ j))
      ],
      at,
    )
  where
    three : (num : ℕ) → (num < table_size) ⊎ (num ≡ table_size) ⊎ (table_size < num)
    three num = ground arith

-- From a kernel where the processes form a ring and `cur` alone may be running, whatever clock
-- interrupts, wake-ups, system calls that return, page faults and runs of the scheduler come, in
-- any order, with processes in between that change their registers and the alarms, completions and
-- statistics that they share with the kernel: the processes form the same ring, at most `cur` is
-- running, and the scheduler, with as much fuel as there are processes, ends and leaves one process
-- running, in such a kernel again. A system call from there jumps through the word behind the table
-- if its number is the number of entries, and with no other number.
pub reachable-IsGood :
    (p : Ptr) (ps : List Ptr) (kernel_self trampoline fuel : ℕ) (s s' : Sys)
    → length ps < fuel
    → IsGood p ps s.kernel
    → Steps kernel_self trampoline fuel s s'
    → IsGood p ps s'.kernel
      × ((k : Kernel) × (schedule trampoline fuel s'.kernel ≡ some k)
          × IsGood p ps k
          × ((k.proc k.cur).state ≡ active))
      × ((n num arg : ℕ) → (c_svc n kernel_self s' num arg ≡ wild_jump) ↔ (num ≡ table_size))
reachable-IsGood p ps ks t fuel s s' enough h steps =
    let g = Steps-IsGood p ps ks t fuel enough s s' h steps in
    let (k, e, sound, ring, act) = schedule-keeps t fuel s'.kernel p ps g.sound g.ring enough in
    (g, (k, e, record { sound = sound; ring = ring }, act), λ n num arg. jumps n ks s' num arg)
