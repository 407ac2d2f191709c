-- ===== src/Sched/Cycle.antt =====
-- The ring of processes as a cycle, which may be entered at any of its processes.
use mathlib.Core.Path.{subst}
use mathlib.Core.List.{append_assoc, append-nil}
use ertos.Base.{
  ◌<◌, ◌≡◌, ◌≢◌, ◌⊎◌, refl, sym, ap, ◌∙◌, inl, inr, Bool-cases, Ptr, null, List, [], ◌∷◌, ◌++◌,
  arith, Store, count, count-append, length, length-append, ◌==◌,
}
use ertos.Proc.{Proc, Kernel}
use ertos.Sched.{first}
use ertos.Sched.Ring.{Chain, Distinct}
use ertos.Sched.Choice.{IsRing}

-- From `p` the links lead through `ps` and back to `p`, and no process comes twice.
pub record Cycle (h : Store Proc) (p : Ptr) (ps : List Ptr) : Type 0 where
  pub chain : Chain h (h p).link ps p
  pub distinct : Distinct (p ∷ ps)

Chain-snoc :
    (h : Store Proc) (x p : Ptr) (qs : List Ptr)
    → Chain h x qs p
    → Chain h x (qs ++ (p ∷ [])) (h p).link
Chain-snoc h x p [] c = (c, refl)
Chain-snoc h x p (q ∷ qs) c = (c.0, Chain-snoc h (h q).link p qs c.1)

Distinct-snoc : (p : Ptr) (qs : List Ptr) → Distinct qs → count p qs ≡ 0 → Distinct (qs ++ (p ∷ []))
Distinct-snoc p [] d n = (omega arith, tt)
Distinct-snoc p (q ∷ qs) d n =
    (ground (arith, count-append q qs (p ∷ [])), Distinct-snoc p qs d.1 (omega (arith, n)))

-- The same cycle, entered at the next process.
turn :
    (h : Store Proc) (p q : Ptr) (qs : List Ptr) → Cycle h p (q ∷ qs) → Cycle h q (qs ++ (p ∷ []))
turn h p q qs c = record {
  chain =
      subst (Chain h (h q).link (qs ++ (p ∷ []))) c.chain.0
        (Chain-snoc h (h q).link p qs c.chain.1);
  distinct = Distinct-snoc p (q ∷ qs) c.distinct.1 c.distinct.0;
}

-- A cycle that is `p ∷ ps`, entered at `q`.
pub record Entered (h : Store Proc) (q : Ptr) (ring : List Ptr) : Type 0 where
  pub rest : List Ptr
  pub cycle : Cycle h q rest
  pub same : (a : Ptr) → count a (q ∷ rest) ≡ count a ring
  pub as_long : length (q ∷ rest) ≡ length ring

here : (h : Store Proc) (p q : Ptr) (ps : List Ptr) → Cycle h p ps → q ≡ p → Entered h q (p ∷ ps)
here h p q ps c e =
    subst (λ q. Entered h q (p ∷ ps)) (sym e)
      (record { rest = ps; cycle = c; same = λ a. refl; as_long = refl })

rebase :
    (h : Store Proc) (q : Ptr) (xs ys : List Ptr)
    → Entered h q xs
    → ((a : Ptr) → count a xs ≡ count a ys)
    → length xs ≡ length ys
    → Entered h q ys
rebase h q xs ys e c l = record {
  rest = e.rest;
  cycle = e.cycle;
  same = λ a. e.same a ∙ c a;
  as_long = e.as_long ∙ l;
}

turned_count :
    (a p r : Ptr) (ps acc : List Ptr)
    → count a (r ∷ (ps ++ (acc ++ (p ∷ [])))) ≡ count a (p ∷ (r ∷ (ps ++ acc)))
turned_count a p r ps acc =
    omega (
      arith,
      count-append a ps (acc ++ (p ∷ [])),
      count-append a acc (p ∷ []),
      count-append a ps acc,
    )

turned_length :
    (p r : Ptr) (ps acc : List Ptr)
    → length (r ∷ (ps ++ (acc ++ (p ∷ [])))) ≡ length (p ∷ (r ∷ (ps ++ acc)))
turned_length p r ps acc =
    omega
      (arith, length-append ps (acc ++ (p ∷ [])), length-append acc (p ∷ []), length-append ps acc)

turn_to :
    (h : Store Proc) (p q : Ptr) (ps acc : List Ptr)
    → Cycle h p (ps ++ acc)
    → 0 < count q (p ∷ ps)
    → Entered h q (p ∷ (ps ++ acc))
turn_to h p q [] acc c n = here h p q acc c (ground (arith, n))
turn_to h p q (r ∷ ps) acc c n = elim (Bool-cases (q == p)) [
  | inl now ↦ here h p q (r ∷ (ps ++ acc)) c (ground (arith, now))
  | inr later ↦
      let c' = subst (Cycle h r) (append_assoc ps acc (p ∷ [])) (turn h p r (ps ++ acc) c) in
      let e = turn_to h r q ps (acc ++ (p ∷ [])) c' (ground (arith, n, later)) in
      rebase h q (r ∷ (ps ++ (acc ++ (p ∷ [])))) (p ∷ (r ∷ (ps ++ acc))) e
        (λ a. turned_count a p r ps acc) (turned_length p r ps acc)
]

-- A cycle may be entered at each of its processes.
pub enter_at :
    (h : Store Proc) (p q : Ptr) (ps : List Ptr)
    → Cycle h p ps
    → 0 < count q (p ∷ ps)
    → Entered h q (p ∷ ps)
enter_at h p q ps c n =
    subst (λ xs. Entered h q (p ∷ xs)) (append-nil ps)
      (turn_to h p q ps [] (subst (Cycle h p) (sym (append-nil ps)) c) n)

next_in : (h : Store Proc) (q : Ptr) (qs : List Ptr) → Cycle h q qs → 0 < count (h q).link (q ∷ qs)
next_in h q [] c = ground (arith, c.chain)
next_in h q (r ∷ qs) c = ground (arith, c.chain.0)

-- The link of a process of the cycle leads to one of the cycle.
pub link_in :
    (h : Store Proc) (p q : Ptr) (ps : List Ptr)
    → Cycle h p ps
    → 0 < count q (p ∷ ps)
    → 0 < count (h q).link (p ∷ ps)
link_in h p q ps c n =
    let e = enter_at h p q ps c n in
    subst (λ n. 0 < n) (e.same (h q).link) (next_in h q e.rest e.cycle)

-- The processes of the kernel form the ring `p ∷ ps`, and the current one is on it or idle.
pub record IsCycle (k : Kernel) (p : Ptr) (ps : List Ptr) : Type 0 where
  pub cycle : Cycle k.proc p ps
  pub no_null : count null (p ∷ ps) ≡ 0
  pub head_in : 0 < count k.procs (p ∷ ps)
  pub cur_in : (k.cur ≡ k.idle_task) ⊎ (0 < count k.cur (p ∷ ps))

in-ne-null : (p q : Ptr) (ps : List Ptr) → count null (p ∷ ps) ≡ 0 → 0 < count q (p ∷ ps) → q ≢ null
in-ne-null p q ps n h e = let z = ap (λ x. count x (p ∷ ps)) e in omega (arith, z, n, h)

-- `schedule` enters the ring at a process of it.
first_in : (k : Kernel) (p : Ptr) (ps : List Ptr) → IsCycle k p ps → 0 < count (first k) (p ∷ ps)
unfolding first
first_in k p ps c = elim c.cur_in [
  | inl idle ↦ ground (arith, c.head_in, idle)
  | inr on ↦ ground (arith, c.head_in, on, link_in k.proc p k.cur ps c.cycle on)
]

pub IsCycle-IsRing :
    (k : Kernel) (p : Ptr) (ps : List Ptr)
    → IsCycle k p ps
    → (xs : List Ptr) × IsRing k xs
      × (length xs ≡ length ps)
      × ((a : Ptr) → count a (first k ∷ xs) ≡ count a (p ∷ ps))
IsCycle-IsRing k p ps c =
    let e = enter_at k.proc p (first k) ps c.cycle (first_in k p ps c) in
    (
      e.rest,
      record {
        some_proc = in-ne-null p k.procs ps c.no_null c.head_in;
        chain = e.cycle.chain;
        distinct = e.cycle.distinct;
      },
      omega (arith, e.as_long),
      e.same,
    )
