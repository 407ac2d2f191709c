-- ===== src/Sched/Ring.antt =====
-- The ring of processes, and the search of `schedule` along it.
use mathlib.Core.Path.{subst}
use ertos.Base.{
  ℕ, zero, suc, ◌<◌, ◌≡◌, refl, sym, ap, ◌∙◌, ◌≢◌, ◌⊎◌, inl, inr, Bool, true, false, Bool-cases,
  Ptr, List, [], ◌∷◌, some, arith, Store, write, write_self, write_ne, count, length, ◌==◌,
  if◌then◌else◌,
}
use ertos.Proc.{Proc, Kernel, put}
use ertos.Sched.{check_timers, is_run, scan}
use ertos.Sched.Check.{link-check_timers}

-- From `p` the links lead through `xs` to `stop`.
abbrev pub Chain : Store Proc → Ptr → List Ptr → Ptr → Type 0
Chain h p [] stop = p ≡ stop
Chain h p (x ∷ xs) stop = (p ≡ x) × Chain h (h x).link xs stop

-- No address twice.
abbrev pub Distinct : List Ptr → Type 0
Distinct [] = Unit
Distinct (x ∷ xs) = (count x xs ≡ 0) × Distinct xs

-- The process would be on the run queue once its timers are looked at.
abbrev pub ready : (trampoline : Ptr) → Kernel → Ptr → Bool
ready trampoline k x = is_run (check_timers trampoline k.clkticks (k.proc x)).state

-- The first ready process of a list, or the idle task.
abbrev pub first_ready : (trampoline : Ptr) → Kernel → List Ptr → Ptr
first_ready trampoline k [] = k.idle_task
first_ready trampoline k (x ∷ xs) = if ready trampoline k x then x else first_ready trampoline k xs

-- `k'` is `k` after the timers of some of `xs` were looked at, once each.
pub record Swept (trampoline : Ptr) (xs : List Ptr) (k k' : Kernel) : Type 0 where
  pub rest : k' ≡ record k { proc = k'.proc }
  pub outside : (a : Ptr) → count a xs ≡ 0 → k'.proc a ≡ k.proc a
  pub inside :
      (a : Ptr)
      → (k'.proc a ≡ k.proc a) ⊎ (k'.proc a ≡ check_timers trampoline k.clkticks (k.proc a))

pub Chain-write :
    (h : Store Proc) (p : Ptr) (v : Proc) (q stop : Ptr) (xs : List Ptr)
    → count p xs ≡ 0
    → Chain h q xs stop
    → Chain (write h p v) q xs stop
Chain-write h p v q stop [] n c = c
Chain-write h p v q stop (x ∷ xs) n c =
    let ne : x ≢ p = ground arith in
    (c.0, rw (write_ne h p x v ne) (Chain-write h p v (h x).link stop xs (ground arith) c.1))

first_ready-put :
    (t : Ptr) (k : Kernel) (p : Ptr) (v : Proc) (xs : List Ptr)
    → count p xs ≡ 0
    → first_ready t (put k p v) xs ≡ first_ready t k xs
first_ready-put t k p v [] n = refl
first_ready-put t k p v (x ∷ xs) n =
    let ne : x ≢ p = ground arith in
    rw (write_ne k.proc p x v ne, first_ready-put t k p v xs (ground arith))

-- The store after the look at `p`'s timers.
abbrev pub looked : (trampoline : Ptr) → Kernel → Ptr → Kernel
looked t k p = put k p (check_timers t k.clkticks (k.proc p))

module _ (t : Ptr) (n : ℕ) (op p : Ptr) (k : Kernel) where
  scan_stop : ready t k p ≡ true → scan t (suc n) op p k ≡ some (p, looked t k p)
  unfolding scan
  scan_stop r = rw (write_self k.proc p (check_timers t k.clkticks (k.proc p)), r)

  scan_wrap :
      ready t k p ≡ false
      → (k.proc p).link ≡ op
      → scan t (suc n) op p k ≡ some (k.idle_task, looked t k p)
  unfolding scan
  scan_wrap r e =
      let v = check_timers t k.clkticks (k.proc p) in
      let back : (v.link == op) ≡ true =
        ground (arith, link-check_timers t k.clkticks (k.proc p)) in
      rw (write_self k.proc p v, r, back)

  scan_next :
      (x : Ptr)
      → ready t k p ≡ false
      → (k.proc p).link ≡ x
      → x ≢ op
      → scan t (suc n) op p k ≡ scan t n op x (looked t k p)
  unfolding scan
  scan_next x r e ne =
      let v = check_timers t k.clkticks (k.proc p) in
      let on : v.link ≡ x = link-check_timers t k.clkticks (k.proc p) ∙ e in
      let more : (v.link == op) ≡ false = ground arith in rw (write_self k.proc p v, r, more, on)

looked-Swept : (t : Ptr) (k : Kernel) (p : Ptr) (xs : List Ptr) → Swept t (p ∷ xs) k (looked t k p)
unfolding write
looked-Swept t k p xs = record {
  rest = refl;
  outside = λ a n. ground arith;
  inside = λ a. ground arith;
}

-- Two looks at different processes.
Swept-cons :
    (t : Ptr) (k k' : Kernel) (p : Ptr) (xs : List Ptr)
    → count p xs ≡ 0
    → Swept t xs (looked t k p) k'
    → Swept t (p ∷ xs) k k'
Swept-cons t k k' p xs n s = record {
  rest = s.rest;
  outside = λ a out.
      let ne : a ≢ p = ground arith in s.outside a (ground arith) ∙ write_ne k.proc p a _ ne;
  inside = λ a. elim (Bool-cases (a == p)) [
    | inl same ↦
        let e : a ≡ p = ground arith in
        inr (
          subst (λ b. k'.proc b ≡ check_timers t k.clkticks (k.proc b)) (sym e)
            (s.outside p n ∙ write_self k.proc p _))
    | inr other ↦
        let ne : a ≢ p = ground arith in
        subst (λ v. (k'.proc a ≡ v) ⊎ (k'.proc a ≡ check_timers t k.clkticks v))
          (write_ne k.proc p a _ ne) (s.inside a)
  ];
}

-- Along a chain of distinct processes the search ends within the fuel, chooses the first ready
-- one, or the idle task if none is, and looks at the timers of processes of the chain only.
pub scan-first_ready :
    (t : Ptr) (n : ℕ) (op p : Ptr) (xs : List Ptr) (k : Kernel)
    → Chain k.proc (k.proc p).link xs op
    → count op xs ≡ 0
    → Distinct (p ∷ xs)
    → length xs < n
    → (k' : Kernel) × (scan t n op p k ≡ some (first_ready t k (p ∷ xs), k'))
      × Swept t (p ∷ xs) k k'
scan-first_ready t zero op p xs k c o d f = absurd (omega arith)
scan-first_ready t (suc n) op p [] k c o d f = elim (Bool-cases (ready t k p)) [
  | inl r ↦ (looked t k p, rw (scan_stop t n op p k r, r), looked-Swept t k p [])
  | inr r ↦ (looked t k p, rw (scan_wrap t n op p k r c, r), looked-Swept t k p [])
]
scan-first_ready t (suc n) op p (x ∷ xs) k c o d f = elim (Bool-cases (ready t k p)) [
  | inl r ↦ (looked t k p, rw (scan_stop t n op p k r, r), looked-Swept t k p (x ∷ xs))
  | inr r ↦
      let v = check_timers t k.clkticks (k.proc p) in
      let ne : x ≢ p = ground arith in
      let chain = Chain-write k.proc p v (k.proc x).link op xs (ground arith) c.1 in
      let chain' =
        subst (λ w. Chain (write k.proc p v) w.link xs op) (sym (write_ne k.proc p x v ne)) chain in
      let (k', e, s) =
        scan-first_ready t n op x xs (looked t k p) chain' (ground arith) d.1 (omega arith) in
      (
        k',
        rw (scan_next t n op p k x r c.0 (ground arith), r)
            (e ∙ ap (λ y. some (y, k')) (first_ready-put t k p v (x ∷ xs) d.0)),
        Swept-cons t k k' p (x ∷ xs) d.0 s,
      )
]
