-- ===== src/Console/Blanks.antt =====
-- The two inner loops of `console_task`: the blanks in front of a word, and the word.
use mathlib.Core.Path.{subst}
use ertos.Base.{
  ℕ, zero, suc, ◌+◌, ◌≡◌, ◌≢◌, ◌≤◌, ◌<◌, ◌∙◌, ◌⊎◌, inl, inr, Bool-cases, refl, ap, sym, arith, true,
  false, not, Ptr, write, List, [], ◌∷◌, length, some,
}
use ertos.CString.{Bytes}
use ertos.Console.{is_space, skip_blanks, skip_word}
use ertos.Console.Line.{Holds, begins, first_word, behind_word, words, words-blank, Holds-agree}

-- The end of a line is a terminator, and its first byte is no terminator.
pub given : (cs : List ℕ) (m : Bytes) (p : Ptr) → begins cs ≡ true → Holds m p cs → m p ≢ 0
given [] m p b h = cc
given (c ∷ cs) m p b (e, n, rest) = λ z. n (sym e ∙ z)

pub empty_line : (cs : List ℕ) → cs ≡ [] → ¬ (begins cs ≡ true)
empty_line [] e b = cc
empty_line (c ∷ cs) e b = cc

-- What the blanks in front of a word are turned into.
pub record Skipped (f : ℕ) (m : Bytes) (p : Ptr) (cs : List ℕ) : Type 0 where
  pub after : Bytes
  pub at : Ptr
  pub rest : List ℕ
  pub eq : skip_blanks f m p ≡ some (after, at)
  pub holds : Holds after at rest
  pub starts : (rest ≡ []) ⊎ (begins rest ≡ true)
  pub same : words rest ≡ words cs
  pub ends : at + length rest ≡ p + length cs
  pub moved : p ≤ at
  pub kept : (a : Ptr) → (a < p) ⊎ (at ≤ a) → after a ≡ m a
  pub ended : begins cs ≡ false → (after p ≡ 0) × ((p < at) ⊎ (rest ≡ []))

blank_step :
    (f : ℕ) (m : Bytes) (p : Ptr)
    → is_space (m p) ≡ true
    → skip_blanks (suc f) m p ≡ skip_blanks f (write m p 0) (p + 1)
unfolding skip_blanks
blank_step f m p h = rw h refl

blank_stop :
    (f : ℕ) (m : Bytes) (p : Ptr) → is_space (m p) ≡ false → skip_blanks (suc f) m p ≡ some (m, p)
unfolding skip_blanks
blank_stop f m p h = rw h refl

write_other : (m : Bytes) (p a : Ptr) → (a < p) ⊎ (p < a) → write m p 0 a ≡ m a
unfolding write
write_other m p a h = ground (arith, h)

write_same : (m : Bytes) (p : Ptr) → write m p 0 p ≡ 0
unfolding write
write_same m p = ground arith

pub skip_blanks-Skipped :
    (cs : List ℕ) (f : ℕ) (m : Bytes) (p : Ptr) → Holds m p cs → length cs < f → Skipped f m p cs
skip_blanks-Skipped cs zero m p h lt = elim lt [ ]
skip_blanks-Skipped [] (suc f) m p h lt = record {
  after = m;
  at = p;
  rest = [];
  eq = blank_stop f m p (ap (λ x. is_space x) h);
  holds = h;
  starts = inl refl;
  same = refl;
  ends = refl;
  moved = omega arith;
  kept = λ a l. refl;
  ended = λ b. (h, inr refl);
}
skip_blanks-Skipped (c ∷ cs) (suc f) m p (e, n, h) lt = elim (Bool-cases (is_space c)) [
  | inl blank ↦
      let r =
        skip_blanks-Skipped cs f (write m p 0) (p + 1)
          (Holds-agree cs m (write m p 0) (p + 1)
            (λ a le up. write_other m p a (inr (omega (arith, le)))) h)
          (omega (arith, lt)) in
      record {
        after = r.after;
        at = r.at;
        rest = r.rest;
        eq = blank_step f m p (ap (λ x. is_space x) e ∙ blank) ∙ r.eq;
        holds = r.holds;
        starts = r.starts;
        same = r.same ∙ sym (words-blank c cs blank);
        ends = omega (arith, r.ends);
        moved = omega (arith, r.moved);
        kept = λ a l. r.kept a (ground (arith, l)) ∙ write_other m p a (ground (arith, l, r.moved));
        ended = λ b. (r.kept p (inl (omega arith)) ∙ write_same m p, inl (omega (arith, r.moved)));
      }
  | inr word ↦ record {
    after = m;
    at = p;
    rest = c ∷ cs;
    eq = blank_stop f m p (ap (λ x. is_space x) e ∙ word);
    holds = (e, n, h);
    starts = inr (ap not word);
    same = refl;
    ends = refl;
    moved = omega arith;
    kept = λ a l. refl;
    ended = λ b. ground (arith, b, word);
  }
]

-- A word ends at the first blank behind it, or at the end of the line.
pub skip_word_lem :
    (cs : List ℕ) (f : ℕ) (m : Bytes) (p : Ptr)
    → Holds m p cs
    → length cs < f
    → skip_word f m p ≡ some (p + length (first_word cs))
unfolding skip_word
skip_word_lem cs zero m p h lt = elim lt [ ]
skip_word_lem [] (suc f) m p h lt = rw h (ap some (omega arith))
skip_word_lem (c ∷ cs) (suc f) m p (e, n, h) lt =
    let rest = skip_word_lem cs f m (p + 1) h (omega (arith, lt)) in
    rw e (rw rest ground (arith, n))

pub Holds-behind :
    (cs : List ℕ) (m : Bytes) (p : Ptr)
    → Holds m p cs
    → Holds m (p + length (first_word cs)) (behind_word cs)
Holds-behind [] m p h = ap m (omega arith) ∙ h
Holds-behind (c ∷ cs) m p (e, n, h) = elim (Bool-cases (is_space c)) [
  | inl blank ↦ rw blank (subst (λ a. Holds m a (c ∷ cs)) (omega arith) (e, n, h))
  | inr word ↦
      rw word (subst (λ a. Holds m a (behind_word cs)) (omega arith) (Holds-behind cs m (p + 1) h))
]

pub word_parts : (cs : List ℕ) → length (first_word cs) + length (behind_word cs) ≡ length cs
word_parts [] = refl
word_parts (c ∷ cs) = ground (arith, word_parts cs)

first_word_blank : (c : ℕ) (cs : List ℕ) → is_space c ≡ true → first_word (c ∷ cs) ≡ []
first_word_blank c cs h = rw h refl

first_word_on : (c : ℕ) (cs : List ℕ) → is_space c ≡ false → first_word (c ∷ cs) ≡ c ∷ first_word cs
first_word_on c cs h = rw h refl

-- A word stands in a memory that agrees on its bytes and has a terminator behind them.
pub word_stands :
    (cs : List ℕ) (m m' : Bytes) (p : Ptr)
    → Holds m p cs
    → ((a : Ptr) → a < p + length (first_word cs) → m' a ≡ m a)
    → m' (p + length (first_word cs)) ≡ 0
    → Holds m' p (first_word cs)
word_stands [] m m' p h k z = ap m' (omega arith) ∙ z
word_stands (c ∷ cs) m m' p (e, n, h) k z = elim (Bool-cases (is_space c)) [
  | inl blank ↦
      let w = first_word_blank c cs blank in
      let len = ap (λ w. length w) w in subst (Holds m' p) (sym w) (ap m' (omega (arith, len)) ∙ z)
  | inr word ↦
      let w = first_word_on c cs word in
      let len = ap (λ w. length w) w in
      let rest =
        word_stands cs m m' (p + 1) h (λ a l. k a (omega (arith, l, len)))
          (ap m' (omega (arith, len)) ∙ z) in
      subst (Holds m' p) (sym w) (k p (omega (arith, len)) ∙ e, n, rest)
]
