-- ===== src/Sched/Round.antt =====
-- `schedule` and what else leaves the ring as it is.
use mathlib.Core.Path.{subst}
use ertos.Base.{
  ℕ, ◌<◌, ◌≡◌, ◌⊎◌, refl, sym, ap, ◌∙◌, inl, inr, Bool-cases, Ptr, null, List, [], ◌∷◌, some, arith,
  true, count, length, ◌==◌,
}
use mathlib.Core.Option.{some-injective}
use ertos.Proc.{active, Proc, Kernel}
use ertos.Sched.{check_timers, schedule, settle, first}
use ertos.Sched.Check.{link-check_timers}
use ertos.Sched.Ring.{Chain, first_ready, ready}
use ertos.Sched.Choice.{Runs, Chain-ext, settle-link, schedule-first_ready}
use ertos.Sched.Sound.{IsSound, settle-globals, schedule-IsSound}
use ertos.Sched.Cycle.{Cycle, IsCycle, IsCycle-IsRing}

-- The links, the head of the list and the idle task are the same.
pub record Linked (k k' : Kernel) : Type 0 where
  pub link : (a : Ptr) → (k'.proc a).link ≡ (k.proc a).link
  pub procs : k'.procs ≡ k.procs
  pub idle : k'.idle_task ≡ k.idle_task

Linked-Cycle :
    (k k' : Kernel) (p : Ptr) (ps : List Ptr) → Linked k k' → Cycle k.proc p ps → Cycle k'.proc p ps
Linked-Cycle k k' p ps l c = record {
  chain =
      subst (λ q. Chain k'.proc q ps p) (sym (l.link p))
        (Chain-ext k.proc k'.proc (k.proc p).link p ps l.link c.chain);
  distinct = c.distinct;
}

-- What leaves the links alone and puts a process of the ring, or the idle task, in `cur`.
pub Linked-IsCycle :
    (k k' : Kernel) (p : Ptr) (ps : List Ptr)
    → Linked k k'
    → (k'.cur ≡ k'.idle_task) ⊎ (0 < count k'.cur (p ∷ ps))
    → IsCycle k p ps
    → IsCycle k' p ps
Linked-IsCycle k k' p ps l on c = record {
  cycle = Linked-Cycle k k' p ps l c.cycle;
  no_null = c.no_null;
  head_in = subst (λ q. 0 < count q (p ∷ ps)) (sym l.procs) c.head_in;
  cur_in = on;
}

weaken :
    (q r x : Ptr) (xs : List Ptr) (idle : Ptr)
    → r ≡ q
    → (q ≡ idle) ⊎ (0 < count q xs)
    → (r ≡ idle) ⊎ (0 < count r (x ∷ xs))
weaken q r x xs idle e (inl h) = inl (e ∙ h)
weaken q r x xs idle e (inr h) = inr (subst (λ z. 0 < count z (x ∷ xs)) (sym e) (omega (arith, h)))

first_ready-in :
    (t : Ptr) (k : Kernel) (xs : List Ptr)
    → (first_ready t k xs ≡ k.idle_task) ⊎ (0 < count (first_ready t k xs) xs)
first_ready-in t k [] = inl refl
first_ready-in t k (x ∷ xs) = elim (Bool-cases (ready t k x)) [
  | inl go ↦ inr (rw go (ground arith))
  | inr skip ↦
      weaken (first_ready t k xs) (first_ready t k (x ∷ xs)) x xs k.idle_task (rw skip refl)
        (first_ready-in t k xs)
]

from_link :
    (t : Ptr) (k : Kernel) (a : Ptr) (v : Proc)
    → (v ≡ (settle k).proc a) ⊎ (v ≡ check_timers t (settle k).clkticks ((settle k).proc a))
    → v.link ≡ (k.proc a).link
from_link t k a v (inl e) = ap (λ (q : Proc). q.link) e ∙ settle-link k a
from_link t k a v (inr e) =
    ap (λ (q : Proc). q.link) e
    ∙ link-check_timers t (settle k).clkticks ((settle k).proc a)
    ∙ settle-link k a

eq_of : (a c : Ptr) → (a == c) ≡ true → a ≡ c
eq_of a c h = ground arith

Runs-Linked :
    (t : Ptr) (ring : List Ptr) (k : Kernel) (c : Ptr) (k' : Kernel)
    → Runs t ring (settle k) c k'
    → Linked k k'
Runs-Linked t ring k c k' r = record {
  link = λ a. elim (Bool-cases (a == c)) [
    | inl same ↦
        let (v, e, from) = r.picked in
        let link_v = from_link t k c v from in
        ap (λ b. (k'.proc b).link) (eq_of a c same)
        ∙ ap (λ (q : Proc). q.link) e
        ∙ link_v
        ∙ ap (λ b. (k.proc b).link) (sym (eq_of a c same))
    | inr other ↦ from_link t k a (k'.proc a) (r.others a (ground (arith, other)))
  ];
  procs = r.same_procs.0 ∙ (settle-globals k).0;
  idle = r.same_procs.1 ∙ (settle-globals k).1;
}

chosen_on :
    (p : Ptr) (ps xs : List Ptr) (k k1 : Kernel) (c : Ptr)
    → k1.cur ≡ c
    → k1.idle_task ≡ (settle k).idle_task
    → ((a : Ptr) → count a (first k ∷ xs) ≡ count a (p ∷ ps))
    → (c ≡ (settle k).idle_task) ⊎ (0 < count c (first k ∷ xs))
    → (k1.cur ≡ k1.idle_task) ⊎ (0 < count k1.cur (p ∷ ps))
chosen_on p ps xs k k1 c e i same (inl idle) = inl (e ∙ idle ∙ sym i)
chosen_on p ps xs k k1 c e i same (inr on) =
    inr (subst (λ z. 0 < count z (p ∷ ps)) (sym e) (subst (λ n. 0 < n) (same c) on))

-- On a sound kernel with its ring, and with as much fuel as there are processes, `schedule` ends in
-- such a kernel again, where the current process is running.
pub schedule-keeps :
    (t : Ptr) (fuel : ℕ) (k : Kernel) (p : Ptr) (ps : List Ptr)
    → IsSound k
    → IsCycle k p ps
    → length ps < fuel
    → (k' : Kernel) × (schedule t fuel k ≡ some k')
      × IsSound k'
      × IsCycle k' p ps
      × ((k'.proc k'.cur).state ≡ active)
schedule-keeps t fuel k p ps s c lt =
    let (xs, ring, len, same) = IsCycle-IsRing k p ps c in
    let f : length xs < fuel = omega (arith, len, lt) in
    let (k1, e1, runs) = schedule-first_ready t fuel k xs ring f in
    let (k2, e2, sound, act) = schedule-IsSound t fuel k xs s ring (same null ∙ c.no_null) f in
    let one_result : k1 ≡ k2 = some-injective k1 k2 (sym e1 ∙ e2) in
    let linked = Runs-Linked t (first k ∷ xs) k (first_ready t (settle k) (first k ∷ xs)) k1 runs in
    let on = first_ready-in t (settle k) (first k ∷ xs) in
    (
      k2,
      e2,
      sound,
      subst (λ k. IsCycle k p ps) one_result
          (Linked-IsCycle k k1 p ps linked
            (chosen_on p ps xs k k1 (first_ready t (settle k) (first k ∷ xs)) runs.chosen
              runs.same_procs.1 same on)
            c),
      act,
    )
