-- ===== src/Sched/Choice.antt =====
-- `schedule` on a ring of processes.
use mathlib.Core.Path.{subst}
use ertos.Base.{
  ℕ, ◌<◌, ◌≡◌, refl, sym, ap, ◌≢◌, ◌⊎◌, false, Ptr, null, List, [], ◌∷◌, some, arith, Store, write,
  write_self, write_ne, count, length, ne→==,
}
use ertos.Proc.{active, Proc, Kernel}
use ertos.Sched.{check_timers, settle, first, finish, schedule}
use ertos.Sched.Ring.{Chain, Distinct, first_ready, Swept, scan-first_ready}

-- Leaving the CPU changes the state of one process at most.
pub settle-link : (k : Kernel) (a : Ptr) → ((settle k).proc a).link ≡ (k.proc a).link
unfolding settle write
settle-link k a = ground arith

settle-first : (k : Kernel) → first (settle k) ≡ first k
unfolding settle first write
settle-first k = ground arith

pub Chain-ext :
    (h g : Store Proc) (p stop : Ptr) (xs : List Ptr)
    → ((a : Ptr) → (g a).link ≡ (h a).link)
    → Chain h p xs stop
    → Chain g p xs stop
Chain-ext h g p stop [] e c = c
Chain-ext h g p stop (x ∷ xs) e c =
    (c.0, subst (λ q. Chain g q xs stop) (sym (e x)) (Chain-ext h g (h x).link stop xs e c.1))

-- The processes that `schedule` may choose from, in the order in which it looks at them: from the
-- one after `cur`, or from the head of the list, once round the ring.
pub record IsRing (k : Kernel) (xs : List Ptr) : Type 0 where
  pub some_proc : k.procs ≢ null
  pub chain : Chain k.proc (k.proc (first k)).link xs (first k)
  pub distinct : Distinct (first k ∷ xs)

-- `k'` runs `c`: it is the only process that the switch itself touched after the search.
pub record Runs (t : Ptr) (ring : List Ptr) (k : Kernel) (c : Ptr) (k' : Kernel) : Type 0 where
  pub chosen : k'.cur ≡ c
  pub picked :
      (v : Proc) × (k'.proc c ≡ record v { state = active })
      × ((v ≡ k.proc c) ⊎ (v ≡ check_timers t k.clkticks (k.proc c)))
  pub own_self : k'.self ≡ (k'.proc c).self
  pub served : k'.need_reschedule ≡ false
  pub same_clock : k'.clkticks ≡ k.clkticks
  pub same_procs : (k'.procs ≡ k.procs) × (k'.idle_task ≡ k.idle_task)
  pub others :
      (a : Ptr)
      → a ≢ c
      → (k'.proc a ≡ k.proc a) ⊎ (k'.proc a ≡ check_timers t k.clkticks (k.proc a))
  pub outside : (a : Ptr) → a ≢ c → count a ring ≡ 0 → k'.proc a ≡ k.proc a

finish-Runs :
    (t : Ptr) (ring : List Ptr) (k k' : Kernel) (c : Ptr)
    → Swept t ring k k'
    → Runs t ring k c (finish (c, k'))
unfolding finish
finish-Runs t ring k k' c s = record {
  chosen = refl;
  picked = (k'.proc c, write_self k'.proc c _, s.inside c);
  own_self = rw (write_self k'.proc c);
  served = refl;
  same_clock = ap (λ (k : Kernel). k.clkticks) s.rest;
  same_procs = (ap (λ (k : Kernel). k.procs) s.rest, ap (λ (k : Kernel). k.idle_task) s.rest);
  others = λ a ne. rw (write_ne k'.proc c a _ ne) (s.inside a);
  outside = λ a ne out. rw (write_ne k'.proc c a _ ne) (s.outside a out);
}

-- On a ring of distinct processes, with as much fuel as there are processes, `schedule` ends. It
-- runs the first process of the ring, in the order of `first k ∷ xs`, that is on the run queue once
-- its timers are looked at, or the idle task if none is; every other process is as it was when the
-- CPU was given up, but for its timers, and one outside the ring is not touched at all.
pub schedule-first_ready :
    (t : Ptr) (fuel : ℕ) (k : Kernel) (xs : List Ptr)
    → IsRing k xs
    → length xs < fuel
    → let ring = first k ∷ xs in
      (k' : Kernel) × (schedule t fuel k ≡ some k')
      × Runs t ring (settle k) (first_ready t (settle k) ring) k'
unfolding schedule
schedule-first_ready t fuel k xs r f =
    let ks = settle k in
    let op = first k in
    let chain = Chain-ext k.proc ks.proc _ op xs (settle-link k) r.chain in
    let chain' = subst (λ l. Chain ks.proc l xs op) (sym (settle-link k op)) chain in
    let (k', e, s) = scan-first_ready t fuel op op xs ks chain' r.distinct.0 r.distinct f in
    let c = first_ready t ks (op ∷ xs) in
    (
      finish (c, k'),
      rw (ne→== k.procs null r.some_proc, settle-first k, e),
      finish-Runs t (op ∷ xs) ks k' c s,
    )
