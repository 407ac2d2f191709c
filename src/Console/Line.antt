-- ===== src/Console/Line.antt =====
-- Lines in memory, and the words of a line.
use ertos.Base.{All}
use ertos.Base.{Bool-cases, inl, inr}
use ertos.Base.{
  ℕ, ◌+◌, ◌≡◌, ◌≢◌, ◌≤◌, ◌<◌, ◌∙◌, refl, ap, sym, arith, Bool, true, false, not, Ptr, List, [], ◌∷◌,
  length, if◌then◌else◌,
}
use ertos.CString.{Bytes}
use ertos.Console.{is_space}

-- The bytes of a line stand from `p` on, none of them 0, with a terminator behind them.
abbrev pub Holds : Bytes → Ptr → List ℕ → Type 0
Holds m p [] = m p ≡ 0
Holds m p (c ∷ cs) = (m p ≡ c) × (c ≢ 0) × Holds m (p + 1) cs

-- A line starts with a word.
abbrev pub begins : List ℕ → Bool
begins [] = false
begins (c ∷ cs) = not (is_space c)

-- The word that a line starts with, and the line behind it.
abbrev pub first_word : List ℕ → List ℕ
first_word [] = []
first_word (c ∷ cs) = if is_space c then [] else c ∷ first_word cs

abbrev pub behind_word : List ℕ → List ℕ
behind_word [] = []
behind_word (c ∷ cs) = if is_space c then c ∷ cs else behind_word cs

-- A character in front of the words of a line, which goes to the first one if `joined`.
abbrev pub prepend : ℕ → (joined : Bool) → List (List ℕ) → List (List ℕ)
prepend c joined [] = (c ∷ []) ∷ []
prepend c joined (w ∷ ws) = if joined then (c ∷ w) ∷ ws else (c ∷ []) ∷ (w ∷ ws)

-- The words of a line: its longest runs of characters that are no blanks.
abbrev pub words : List ℕ → List (List ℕ)
words [] = []
words (c ∷ cs) = if is_space c then words cs else prepend c (begins cs) (words cs)

pub words-blank : (c : ℕ) (cs : List ℕ) → is_space c ≡ true → words (c ∷ cs) ≡ words cs
words-blank c cs h = rw h refl

prepend_apart : (c : ℕ) (ws : List (List ℕ)) → prepend c false ws ≡ (c ∷ []) ∷ ws
prepend_apart c [] = refl
prepend_apart c (w ∷ ws) = refl

no_word : (cs : List ℕ) → begins cs ≡ false → (first_word cs ≡ []) × (behind_word cs ≡ cs)
no_word [] h = (refl, refl)
no_word (c ∷ cs) h = (ground (arith, h), ground (arith, h))

not_space : (c : ℕ) → not (is_space c) ≡ true → is_space c ≡ false
not_space c h = ground (arith, h)

-- A line that starts with a word has it for its first word.
pub words-first :
    (cs : List ℕ) → begins cs ≡ true → words cs ≡ first_word cs ∷ words (behind_word cs)
words-first [] h = cc
words-first (c ∷ cs) h = elim (Bool-cases (begins cs)) [
  | inl more ↦ rw (not_space c h) (rw more (rw (words-first cs more) refl))
  | inr stop ↦
      let (e1, e2) = no_word cs stop in
      rw (not_space c h) (
        rw stop (
          prepend_apart c (words cs)
          ∙ ap (λ w. (c ∷ w) ∷ words cs) (sym e1)
          ∙ ap (λ ds. (c ∷ first_word cs) ∷ words ds) (sym e2)))
]

pub behind_word_bound : (cs : List ℕ) → length (behind_word cs) ≤ length cs
behind_word_bound [] = omega arith
behind_word_bound (c ∷ cs) = ground (arith, behind_word_bound cs)

pub behind_word_less : (cs : List ℕ) → begins cs ≡ true → length (behind_word cs) < length cs
behind_word_less [] h = cc
behind_word_less (c ∷ cs) h = rw (not_space c h) omega (arith, behind_word_bound cs)

pub behind_word-begins : (cs : List ℕ) → begins (behind_word cs) ≡ false
behind_word-begins [] = refl
behind_word-begins (c ∷ cs) = ground (arith, behind_word-begins cs)

-- A line is where it was in a memory that agrees on it.
pub Holds-agree :
    (cs : List ℕ) (m m' : Bytes) (p : Ptr)
    → ((a : Ptr) → p ≤ a → a ≤ p + length cs → m' a ≡ m a)
    → Holds m p cs
    → Holds m' p cs
Holds-agree [] m m' p h e = h p (omega arith) (omega arith) ∙ e
Holds-agree (c ∷ cs) m m' p h (e, n, rest) = (
  h p (omega arith) (omega arith) ∙ e,
  n,
  Holds-agree cs m m' (p + 1) (λ a le up. h a (omega (arith, le)) (omega (arith, up))) rest,
)

abbrev pub IsGiven : List ℕ → Type 0
IsGiven [] = ⊥
IsGiven (c ∷ cs) = Unit

prepend-IsGiven :
    (c : ℕ) (joined : Bool) (ws : List (List ℕ))
    → All IsGiven ws
    → All IsGiven (prepend c joined ws)
prepend-IsGiven c joined [] h = (tt, tt)
prepend-IsGiven c false (w ∷ ws) h = (tt, h)
prepend-IsGiven c true (w ∷ ws) h = (tt, h.1)

-- No word is empty.
pub words-IsGiven : (cs : List ℕ) → All IsGiven (words cs)
words-IsGiven [] = tt
words-IsGiven (c ∷ cs) = elim (Bool-cases (is_space c)) [
  | inl blank ↦ rw blank (words-IsGiven cs)
  | inr word ↦ rw word (prepend-IsGiven c (begins cs) (words cs) (words-IsGiven cs))
]
