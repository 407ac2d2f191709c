-- ===== src/Sched/Sound.antt =====
-- At most one process is running: `cur`.
use ertos.Base.{true}
use ertos.Sched.Choice.{IsRing, schedule-first_ready}
use ertos.Sched.Ring.{first_ready}
use ertos.Sched.{schedule, first}
use ertos.Base.{ℕ, ◌<◌, ◌∙◌, Bool-cases, [], ◌∷◌, some, length, ◌==◌, count}
use mathlib.Core.Path.{subst}
use ertos.Base.{◌≡◌, sym, ◌≢◌, inl, inr, Ptr, null, List, arith, write}
use ertos.Proc.{active, Proc, Kernel}
use ertos.Sched.{settle}
use ertos.Sched.Check.{check_timers-ne-active}
use ertos.Sched.Choice.{Runs}

-- The process is not running, and neither is the state that an alarm being handled will restore.
abbrev pub IsQuiet : Proc → Type 0
IsQuiet p = (p.state ≢ active) × (p.timer.active ≡ true → p.timer.last_state ≢ active)

-- Only `cur` is running, and no alarm that is being handled will restore the running state.
pub record IsSound (k : Kernel) : Type 0 where
  pub has_cur : k.cur ≢ null
  pub only_cur : (a : Ptr) → (k.proc a).state ≡ active → a ≡ k.cur
  pub last : (a : Ptr) → (k.proc a).timer.active ≡ true → (k.proc a).timer.last_state ≢ active
  pub idle_alone : k.procs ≡ null → k.cur ≡ k.idle_task
  pub has_idle : k.idle_task ≢ null

settle-IsQuiet : (k : Kernel) → IsSound k → (a : Ptr) → IsQuiet ((settle k).proc a)
unfolding settle write
settle-IsQuiet k s a = ground (arith, s.only_cur a, s.last a, s.has_cur)

pub settle-globals :
    (k : Kernel) → ((settle k).procs ≡ k.procs) × ((settle k).idle_task ≡ k.idle_task)
unfolding settle
settle-globals k = ground arith

Runs-IsQuiet :
    (t : Ptr) (ring : List Ptr) (k : Kernel) (c : Ptr) (k' : Kernel)
    → ((a : Ptr) → IsQuiet (k.proc a))
    → Runs t ring k c k'
    → (a : Ptr) → a ≢ c
    → IsQuiet (k'.proc a)
Runs-IsQuiet t ring k c k' q r a ne = elim (r.others a ne) [
  | inl e ↦ subst IsQuiet (sym e) (q a)
  | inr e ↦ subst IsQuiet (sym e) (check_timers-ne-active t k.clkticks (k.proc a) (q a).0 (q a).1)
]

first_ready-ne-null :
    (t : Ptr) (k : Kernel) (ring : List Ptr)
    → k.idle_task ≢ null
    → count null ring ≡ 0
    → first_ready t k ring ≢ null
first_ready-ne-null t k [] i n = i
first_ready-ne-null t k (x ∷ xs) i n = ground (arith, first_ready-ne-null t k xs i)

Runs-IsSound :
    (t : Ptr) (ring : List Ptr) (k : Kernel) (c : Ptr) (k' : Kernel)
    → ((a : Ptr) → IsQuiet (k.proc a))
    → c ≢ null
    → k.idle_task ≢ null
    → k.procs ≢ null
    → Runs t ring k c k'
    → IsSound k'
Runs-IsSound t ring k c k' q ne i p r = record {
  has_cur = λ e. ne (sym r.chosen ∙ e);
  only_cur = λ a e. elim (Bool-cases (a == c)) [
    | inl same ↦ ground (arith, r.chosen)
    | inr other ↦ absurd ((Runs-IsQuiet t ring k c k' q r a (ground arith)).0 e)
  ];
  last = λ a. elim (Bool-cases (a == c)) [
    | inl same ↦ let here : a ≡ c = ground arith in rw here chosen_last
    | inr other ↦ (Runs-IsQuiet t ring k c k' q r a (ground arith)).1
  ];
  idle_alone = λ e. absurd (p (sym r.same_procs.0 ∙ e));
  has_idle = λ e. i (sym r.same_procs.1 ∙ e);
}
  where
    chosen_last : (k'.proc c).timer.active ≡ true → (k'.proc c).timer.last_state ≢ active
    chosen_last =
        let (v, e, from) = r.picked in
        rw e (elim from [
          | inl same ↦
              subst (λ v. v.timer.active ≡ true → v.timer.last_state ≢ active) (sym same) (q c).1
          | inr checked ↦
              subst (λ v. v.timer.active ≡ true → v.timer.last_state ≢ active) (sym checked)
                (check_timers-ne-active t k.clkticks (k.proc c) (q c).0 (q c).1).1
        ])

-- `schedule` keeps it true that `cur` alone is running: no process is left running beside the one
-- that it chose, whichever timers fired on the way.
pub schedule-IsSound :
    (t : Ptr) (fuel : ℕ) (k : Kernel) (xs : List Ptr)
    → IsSound k
    → IsRing k xs
    → count null (first k ∷ xs) ≡ 0
    → length xs < fuel
    → (k' : Kernel) × (schedule t fuel k ≡ some k') × IsSound k' × ((k'.proc k'.cur).state ≡ active)
schedule-IsSound t fuel k xs s r n f =
    let (k', e, runs) = schedule-first_ready t fuel k xs r f in
    let c = first_ready t (settle k) (first k ∷ xs) in
    let idle : (settle k).idle_task ≡ k.idle_task = (settle-globals k).1 in
    let procs : (settle k).procs ≡ k.procs = (settle-globals k).0 in
    let ne = first_ready-ne-null t (settle k) (first k ∷ xs) (λ z. s.has_idle (sym idle ∙ z)) n in
    (
      k',
      e,
      Runs-IsSound t (first k ∷ xs) (settle k) c k' (settle-IsQuiet k s) ne
          (λ z. s.has_idle (sym idle ∙ z)) (λ z. r.some_proc (sym procs ∙ z)) runs,
      rw runs.chosen (rw (runs.picked.1)),
    )
