-- ===== src/Console/Split.antt =====
-- The loop of `console_task` that cuts a line into words.
use mathlib.Core.Path.{subst}
use ertos.Base.{
  ℕ, zero, suc, ◌+◌, ◌≡◌, ◌≢◌, ◌≤◌, ◌<◌, ◌∙◌, ◌⊎◌, inl, inr, refl, ap, sym, arith, true, false, Ptr,
  List, [], ◌∷◌, length, some,
}
use ertos.CString.{Bytes}
use ertos.Console.{skip_blanks, skip_word, with_arg, split, Cutting, cut, overrun, max_args}
use ertos.Console.Line.{
  Holds, begins, first_word, behind_word, words, words-first, behind_word_less, behind_word-begins,
}
use ertos.Console.Blanks.{
  given, empty_line, Skipped, skip_blanks-Skipped, skip_word_lem, Holds-behind, word_parts,
  word_stands,
}

-- The pointers are the words, each with a terminator behind it.
abbrev pub Args : Bytes → List Ptr → List (List ℕ) → Type 0
Args m [] [] = Unit
Args m [] (w ∷ ws) = ⊥
Args m (a ∷ args) [] = ⊥
Args m (a ∷ args) (w ∷ ws) = Holds m a w × Args m args ws

-- What `split` makes of a line.
pub record Cut (m : Bytes) (p : Ptr) (cs : List ℕ) (result : Cutting) : Type 0 where
  pub after : Bytes
  pub args : List Ptr
  pub eq : result ≡ cut after args
  pub kept : (a : Ptr) → (a < p) ⊎ (p + length cs ≤ a) → after a ≡ m a
  pub ended : begins cs ≡ false → after p ≡ 0
  pub stand : Args after args (words cs)

split_end :
    (rounds f slots : ℕ) (m : Bytes) (p : Ptr) → m p ≡ 0 → split (suc rounds) f slots m p ≡ cut m []
unfolding split
split_end rounds f slots m p h = rw h refl

split_blank :
    (rounds f slots : ℕ) (m m1 : Bytes) (p p1 : Ptr)
    → m p ≢ 0
    → skip_blanks f m p ≡ some (m1, p1)
    → m1 p1 ≡ 0
    → split (suc rounds) f slots m p ≡ cut m1 []
unfolding split
split_blank rounds f slots m m1 p p1 n e z = ground (arith, n, e, z)

split_word :
    (rounds f left : ℕ) (m m1 : Bytes) (p p1 p2 : Ptr)
    → m p ≢ 0
    → skip_blanks f m p ≡ some (m1, p1)
    → m1 p1 ≢ 0
    → skip_word f m1 p1 ≡ some p2
    → split (suc rounds) f (suc left) m p ≡ with_arg p1 (split rounds f left m1 p2)
unfolding split
split_word rounds f left m m1 p p1 p2 n e z e2 = ground (arith, n, e, z, e2)

split_full :
    (rounds f : ℕ) (m m1 : Bytes) (p p1 : Ptr)
    → m p ≢ 0
    → skip_blanks f m p ≡ some (m1, p1)
    → m1 p1 ≢ 0
    → split (suc rounds) f 0 m p ≡ overrun
unfolding split
split_full rounds f m m1 p p1 n e z = ground (arith, n, e, z)

-- A line of blanks only.
Cut-blank :
    (rounds f slots : ℕ) (m : Bytes) (p : Ptr) (cs : List ℕ) (s : Skipped f m p cs)
    → m p ≢ 0
    → s.rest ≡ []
    → Cut m p cs (split (suc rounds) f slots m p)
Cut-blank rounds f slots m p cs s n e =
    let at : s.at ≡ p + length cs = omega (arith, s.ends, ap (λ w. length w) e) in
    record {
      after = s.after;
      args = [];
      eq =
          split_blank rounds f slots m s.after p s.at n s.eq (subst (Holds s.after s.at) e s.holds);
      kept = λ a l. s.kept a (ground (arith, l, at));
      ended = λ b. (s.ended b).0;
      stand = subst (Args s.after []) (ap (λ w. words w) (sym e) ∙ s.same) tt;
    }

-- A word behind the blanks, and the line behind it cut up.
Cut-word :
    (rounds f left : ℕ) (m : Bytes) (p : Ptr) (cs : List ℕ) (s : Skipped f m p cs)
    → m p ≢ 0
    → begins s.rest ≡ true
    → length cs < f
    → let p2 = s.at + length (first_word s.rest) in
      Cut s.after p2 (behind_word s.rest) (split rounds f left s.after p2)
      → Cut m p cs (split (suc rounds) f (suc left) m p)
unfolding with_arg
Cut-word rounds f left m p cs s n b lt r =
    let p2 = s.at + length (first_word s.rest) in
    let parts = word_parts s.rest in
    let skip = skip_word_lem s.rest f s.after s.at s.holds (omega (arith, lt, s.ends, s.moved)) in
    let low : (a : Ptr) → a < p2 → r.after a ≡ s.after a = λ a l. r.kept a (inl l) in
    record {
      after = r.after;
      args = s.at ∷ r.args;
      eq =
          split_word rounds f left m s.after p s.at p2 n s.eq (given s.rest s.after s.at b s.holds)
            skip
          ∙ ap (with_arg s.at) r.eq;
      kept = λ a l.
          r.kept a (ground (arith, l, parts, s.ends, s.moved))
          ∙ s.kept a (ground (arith, l, parts, s.ends, s.moved));
      ended = λ b1. elim (s.ended b1).1 [
        | inl l ↦ low p (omega (arith, l)) ∙ (s.ended b1).0
        | inr e ↦ absurd (empty_line s.rest e b)
      ];
      stand = subst (Args r.after (s.at ∷ r.args)) (sym (words-first s.rest b) ∙ s.same) (
        word_stands s.rest s.after r.after s.at s.holds low (r.ended (behind_word-begins s.rest)),
        r.stand,
      );
    }

-- The words of a line that starts with blanks, behind them.
words-Skipped :
    (f : ℕ) (m : Bytes) (p : Ptr) (cs : List ℕ) (s : Skipped f m p cs)
    → begins s.rest ≡ true
    → length (words cs) ≡ suc (length (words (behind_word s.rest)))
words-Skipped f m p cs s b = ap (λ ws. length ws) (sym s.same ∙ words-first s.rest b)

no_words :
    (f : ℕ) (m : Bytes) (p : Ptr) (cs : List ℕ) (s : Skipped f m p cs)
    → s.rest ≡ []
    → length (words cs) ≡ 0
no_words f m p cs s e = ap (λ ws. length ws) (sym s.same ∙ ap (λ w. words w) e)

split-Cut :
    (rounds f slots : ℕ) (cs : List ℕ) (m : Bytes) (p : Ptr)
    → Holds m p cs
    → length cs < rounds
    → length cs < f
    → length (words cs) ≤ slots
    → Cut m p cs (split rounds f slots m p)
split-Cut zero f slots cs m p h lr lt fit = elim lr [ ]
split-Cut (suc rounds) f slots [] m p h lr lt fit = record {
  after = m;
  args = [];
  eq = split_end rounds f slots m p h;
  kept = λ a l. refl;
  ended = λ b. h;
  stand = tt;
}
split-Cut (suc rounds) f zero (c ∷ cs) m p (e, n, h) lr lt fit =
    let s = skip_blanks-Skipped (c ∷ cs) f m p (e, n, h) lt in
    elim s.starts [
      | inl none_left ↦ Cut-blank rounds f 0 m p (c ∷ cs) s (λ z. n (sym e ∙ z)) none_left
      | inr word ↦ absurd (omega (arith, fit, words-Skipped f m p (c ∷ cs) s word))
    ]
split-Cut (suc rounds) f (suc left) (c ∷ cs) m p (e, n, h) lr lt fit =
    let s = skip_blanks-Skipped (c ∷ cs) f m p (e, n, h) lt in
    let first : m p ≢ 0 = λ z. n (sym e ∙ z) in
    elim s.starts [
      | inl none_left ↦ Cut-blank rounds f (suc left) m p (c ∷ cs) s first none_left
      | inr word ↦
          let less = behind_word_less s.rest word in
          Cut-word rounds f left m p (c ∷ cs) s first word lt (
            split-Cut rounds f left (behind_word s.rest) s.after (s.at + length (first_word s.rest))
              (Holds-behind s.rest s.after s.at s.holds) (omega (arith, less, s.ends, s.moved, lr))
              (omega (arith, less, s.ends, s.moved, lt))
              (omega (arith, fit, words-Skipped f m p (c ∷ cs) s word)))
    ]

split-overrun :
    (rounds f slots : ℕ) (cs : List ℕ) (m : Bytes) (p : Ptr)
    → Holds m p cs
    → length cs < rounds
    → length cs < f
    → slots < length (words cs)
    → split rounds f slots m p ≡ overrun
unfolding with_arg
split-overrun zero f slots cs m p h lr lt more = elim lr [ ]
split-overrun (suc rounds) f slots [] m p h lr lt more = elim more [ ]
split-overrun (suc rounds) f zero (c ∷ cs) m p (e, n, h) lr lt more =
    let s = skip_blanks-Skipped (c ∷ cs) f m p (e, n, h) lt in
    elim s.starts [
      | inl none_left ↦ absurd (omega (arith, more, no_words f m p (c ∷ cs) s none_left))
      | inr word ↦
          split_full rounds f m s.after p s.at (λ z. n (sym e ∙ z)) s.eq
            (given s.rest s.after s.at word s.holds)
    ]
split-overrun (suc rounds) f (suc left) (c ∷ cs) m p (e, n, h) lr lt more =
    let s = skip_blanks-Skipped (c ∷ cs) f m p (e, n, h) lt in
    elim s.starts [
      | inl none_left ↦ absurd (omega (arith, more, no_words f m p (c ∷ cs) s none_left))
      | inr word ↦
          let less = behind_word_less s.rest word in
          let skip =
            skip_word_lem s.rest f s.after s.at s.holds (omega (arith, lt, s.ends, s.moved)) in
          split_word rounds f left m s.after p s.at (s.at + length (first_word s.rest))
            (λ z. n (sym e ∙ z)) s.eq (given s.rest s.after s.at word s.holds) skip
          ∙ ap (with_arg s.at) (
              split-overrun rounds f left (behind_word s.rest) s.after
                (s.at + length (first_word s.rest)) (Holds-behind s.rest s.after s.at s.holds)
                (omega (arith, less, s.ends, s.moved, lr))
                (omega (arith, less, s.ends, s.moved, lt))
                (omega (arith, more, words-Skipped f m p (c ∷ cs) s word)))
    ]

-- A line whose words `argv` has room for: the pointers are the words in their order, each of them
-- terminated in place, and no byte outside the line is changed.
pub record Fitted (m : Bytes) (p : Ptr) (cs : List ℕ) (result : Cutting) : Type 0 where
  pub few : length (words cs) ≤ max_args
  pub after : Bytes
  pub args : List Ptr
  pub eq : result ≡ cut after args
  pub stand : Args after args (words cs)
  pub kept : (a : Ptr) → (a < p) ⊎ (p + length cs ≤ a) → after a ≡ m a

-- For a line of text the loop ends, in less rounds than the line has bytes, on both branches. If
-- the line has at most eight words, the entries of `argv` are the words of the line in their order,
-- each of them terminated in place, and no byte outside the line is changed by the loop. If it has
-- more, the loop stores behind the last entry of `argv`.
pub split-words :
    (f : ℕ) (cs : List ℕ) (m : Bytes) (p : Ptr)
    → Holds m p cs
    → length cs < f
    → Fitted m p cs (split f f max_args m p)
      ⊎ ((max_args < length (words cs)) × (split f f max_args m p ≡ overrun))
split-words f cs m p h lt = elim (few_or_more (length (words cs))) [
  | inl few ↦
      let c = split-Cut f f max_args cs m p h lt lt few in
      inl (record {
        few = few;
        after = c.after;
        args = c.args;
        eq = c.eq;
        stand = c.stand;
        kept = c.kept;
      })
  | inr more ↦ inr (more, split-overrun f f max_args cs m p h lt lt more)
]
  where
    few_or_more : (n : ℕ) → (n ≤ max_args) ⊎ (max_args < n)
    few_or_more n = ground arith
