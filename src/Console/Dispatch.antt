-- ===== src/Console/Dispatch.antt =====
-- The search of the command table, and the round of `console_task` behind a line.
use mathlib.Core.Option
use ertos.Console.Line.{IsGiven}
use ertos.Base.{if◌then◌else◌}
use ertos.CString.Compare.{strcmp_differ, strcmp_goes_on, strcmp_stops}
use ertos.Base.{
  ℕ, zero, suc, ◌+◌, ◌≡◌, ◌≤◌, ◌<◌, ◌∙◌, ◌⊎◌, inl, inr, Bool-cases, refl, ap, sym, arith, Bool,
  true, false, ◌&&◌, Ptr, List, [], ◌∷◌, length, Option, some, none, ◌==◌, ltb,
}
use ertos.Base.Int.{pos, negsuc}
use ertos.CString.{Bytes, strcmp}
use ertos.Console.{Command, Func, is_zero, handle_command}
use ertos.Console.Line.{Holds}

-- The same bytes.
abbrev pub same : List ℕ → List ℕ → Bool
same [] [] = true
same [] (d ∷ ds) = false
same (c ∷ cs) [] = false
same (c ∷ cs) (d ∷ ds) = c == d && same cs ds

after_differ : (x y : ℕ) → is_zero (if ltb x y then negsuc 0 else pos 1) ≡ false
after_differ x y = ground arith

after_stop : (x y : ℕ) → is_zero (if x == y then pos 0 else pos 1) ≡ (x == y)
after_stop x y = ground arith

-- Two lines, one of which is at its end.
ends-same :
    (cs ds : List ℕ) (m : Bytes) (p q : Ptr)
    → Holds m p cs
    → Holds m q ds
    → (m p ≡ 0) ⊎ (m q ≡ 0)
    → (m p == m q) ≡ same cs ds
ends-same [] [] m p q h k e = ground (arith, h, k)
ends-same [] (d ∷ ds) m p q h (e', n, k) e = ground (arith, h, e', n)
ends-same (c ∷ cs) [] m p q (e', n, h) k e = ground (arith, k, e', n)
ends-same (c ∷ cs) (d ∷ ds) m p q (e1, n1, h) (e2, n2, k) e = ground (arith, e1, n1, e2, n2, e)

-- The first bytes, and what `strcmp` answers if they are the same.
first-same :
    (c : ℕ) (cs : List ℕ) (d : ℕ) (ds : List ℕ) (f : ℕ) (m : Bytes) (p q : Ptr)
    → m p ≡ c
    → m q ≡ d
    → (m p ≡ m q → Option.map is_zero (strcmp (suc f) m p q) ≡ some (same cs ds))
    → Option.map is_zero (strcmp (suc f) m p q) ≡ some (same (c ∷ cs) (d ∷ ds))
first-same c cs d ds f m p q e e' next = elim (Bool-cases (c == d)) [
  | inr differ ↦
      ap (Option.map is_zero) (strcmp_differ f m p q (ground (arith, e, e', differ)))
      ∙ ap some (after_differ (m p) (m q) ∙ sym (ap (λ b. b && same cs ds) differ))
  | inl equal ↦
      next (ground (arith, e, e', equal)) ∙ ap some (sym (ap (λ b. b && same cs ds) equal))
]

stop-same :
    (cs ds : List ℕ) (f : ℕ) (m : Bytes) (p q : Ptr)
    → Holds m (p + 1) cs
    → Holds m (q + 1) ds
    → m p ≡ m q
    → (m (p + 1) ≡ 0) ⊎ (m (q + 1) ≡ 0)
    → Option.map is_zero (strcmp (suc f) m p q) ≡ some (same cs ds)
stop-same cs ds f m p q h k at e =
    ap (Option.map is_zero) (strcmp_stops f m p q at e)
    ∙ ap some (after_stop (m (p + 1)) (m (q + 1)) ∙ ends-same cs ds m (p + 1) (q + 1) h k e)

-- `strcmp` answers 0 for two strings, not empty, just if they are the same.
pub strcmp-same :
    (c : ℕ) (cs : List ℕ) (d : ℕ) (ds : List ℕ) (f : ℕ) (m : Bytes) (p q : Ptr)
    → Holds m p (c ∷ cs)
    → Holds m q (d ∷ ds)
    → length cs < f
    → Option.map is_zero (strcmp f m p q) ≡ some (same (c ∷ cs) (d ∷ ds))
strcmp-same c cs d ds zero m p q h k lt = elim lt [ ]
strcmp-same c [] d ds (suc f) m p q (e, n, h) (e', n', k) lt =
    first-same c [] d ds f m p q e e' (λ at. stop-same [] ds f m p q h k at (inl h))
strcmp-same c (c1 ∷ cs) d [] (suc f) m p q (e, n, h) (e', n', k) lt =
    first-same c (c1 ∷ cs) d [] f m p q e e' (λ at. stop-same (c1 ∷ cs) [] f m p q h k at (inr k))
strcmp-same c (c1 ∷ cs) d (d1 ∷ ds) (suc f) m p q (e, n, h) (e', n', k) lt =
    first-same c (c1 ∷ cs) d (d1 ∷ ds) f m p q e e' (λ at.
      ap (Option.map is_zero)
        (strcmp_goes_on f m p q at (λ z. h.1 (sym h.0 ∙ z)) (λ z. k.1 (sym k.0 ∙ z)))
      ∙ strcmp-same c1 cs d1 ds f m (p + 1) (q + 1) h k (omega (arith, lt)))

-- The command table as text.
abbrev pub Table : Type 0
Table = List (List ℕ × Func)

-- The command table in memory: the names are strings, not empty, with less than `f` bytes.
abbrev pub Stored : ℕ → Bytes → List Command → Table → Type 0
Stored f m [] [] = Unit
Stored f m [] (e ∷ t) = ⊥
Stored f m (c ∷ cs) [] = ⊥
Stored f m (c ∷ cs) ((name, func) ∷ t) =
    (c.func ≡ func) × IsGiven name × (length name ≤ f) × Holds m c.name name × Stored f m cs t

abbrev pub lookup : List ℕ → Table → Option Func
lookup w [] = none
lookup w ((name, func) ∷ t) = if same name w then some func else lookup w t

handle_command_here :
    (f : ℕ) (m : Bytes) (cmd : Command) (cmds : List Command) (argv0 : Ptr)
    → Option.map is_zero (strcmp f m cmd.name argv0) ≡ some true
    → handle_command f m (cmd ∷ cmds) argv0 ≡ some (some cmd.func)
unfolding handle_command
handle_command_here f m cmd cmds argv0 e = ground (arith, e)

handle_command_on :
    (f : ℕ) (m : Bytes) (cmd : Command) (cmds : List Command) (argv0 : Ptr)
    → Option.map is_zero (strcmp f m cmd.name argv0) ≡ some false
    → handle_command f m (cmd ∷ cmds) argv0 ≡ handle_command f m cmds argv0
unfolding handle_command
handle_command_on f m cmd cmds argv0 e = ground (arith, e)

pub handle_command-lookup :
    (cmds : List Command) (t : Table) (f : ℕ) (m : Bytes) (argv0 : Ptr) (w : List ℕ)
    → Stored f m cmds t
    → IsGiven w
    → Holds m argv0 w
    → handle_command f m cmds argv0 ≡ some (lookup w t)
unfolding handle_command
handle_command-lookup cmds t f m argv0 [] s g h = elim g [ ]
handle_command-lookup [] [] f m argv0 (d ∷ ds) s g h = refl
handle_command-lookup [] (e ∷ t) f m argv0 (d ∷ ds) s g h = elim s [ ]
handle_command-lookup (cmd ∷ cmds) [] f m argv0 (d ∷ ds) s g h = elim s [ ]
handle_command-lookup (cmd ∷ cmds) (([], func) ∷ t) f m argv0 (d ∷ ds) s g h = elim s.1 [ ]
handle_command-lookup (cmd ∷ cmds) ((c ∷ cs, func) ∷ t) f m argv0 (d ∷ ds) (e, g', l, n, s) g h =
    let answer = strcmp-same c cs d ds f m cmd.name argv0 n h (omega (arith, l)) in
    elim (Bool-cases (same (c ∷ cs) (d ∷ ds))) [
      | inl found ↦
          handle_command_here f m cmd cmds argv0 (answer ∙ ap some found)
          ∙ ap (λ x. some (some x)) e
          ∙ sym (ap (λ b. some (if b then some func else lookup (d ∷ ds) t)) found)
      | inr other ↦
          handle_command_on f m cmd cmds argv0 (answer ∙ ap some other)
          ∙ handle_command-lookup cmds t f m argv0 (d ∷ ds) s g h
          ∙ sym (ap (λ b. some (if b then some func else lookup (d ∷ ds) t)) other)
    ]
