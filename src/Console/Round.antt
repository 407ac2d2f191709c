-- ===== src/Console/Round.antt =====
-- A line of text from `gets` to the command that it calls.
use mathlib.Core.Option
use ertos.Base.{
  inl, inr, Option, ℕ, ◌+◌, ◌≡◌, ◌≢◌, ◌≤◌, ◌<◌, ◌∙◌, ◌⊎◌, refl, ap, sym, arith, Ptr, List, [], ◌∷◌,
  length, some, All,
}
use ertos.CString.{Bytes}
use ertos.Console.{
  Handling, acted, smashed, hand_on, cut, overrun, max_args, Command, Outcome, skipped, outcome,
  dispatch, command_line, split,
}
use ertos.Console.Line.{Holds, Holds-agree, IsGiven, words, words-IsGiven}
use ertos.Console.Split.{Args, split-words}
use ertos.Console.Dispatch.{Table, Stored, lookup, handle_command-lookup}

-- The names of the commands stand outside the line.
abbrev pub Apart : (buf : Ptr) → (size : ℕ) → List Command → Table → Type 0
Apart buf size [] t = Unit
Apart buf size (c ∷ cs) [] = Unit
Apart buf size (c ∷ cs) ((name, func) ∷ t) =
    ((c.name + length name < buf) ⊎ (buf + size ≤ c.name)) × Apart buf size cs t

-- What a line calls, for the pointers to its words.
abbrev pub expected : Table → List (List ℕ) → List Ptr → Outcome
expected t [] args = skipped
expected t (w ∷ ws) [] = skipped
expected t (w ∷ ws) (argv0 ∷ args) = outcome argv0 (argv0 ∷ args) (lookup w t)

pub Stored-kept :
    (cmds : List Command) (t : Table) (f : ℕ) (m m' : Bytes) (buf : Ptr) (size : ℕ)
    → ((a : Ptr) → (a < buf) ⊎ (buf + size ≤ a) → m' a ≡ m a)
    → Apart buf size cmds t
    → Stored f m cmds t
    → Stored f m' cmds t
Stored-kept [] [] f m m' buf size k a s = tt
Stored-kept [] (e ∷ t) f m m' buf size k a s = elim s [ ]
Stored-kept (c ∷ cs) [] f m m' buf size k a s = elim s [ ]
Stored-kept (c ∷ cs) ((name, func) ∷ t) f m m' buf size k (a, rest) (e, g, l, n, s) = (
  e,
  g,
  l,
  Holds-agree name m m' c.name (λ x le up. k x (ground (arith, a, le, up))) n,
  Stored-kept cs t f m m' buf size k rest s,
)

dispatch-expected :
    (ws : List (List ℕ)) (args : List Ptr) (cmds : List Command) (t : Table) (f : ℕ) (m : Bytes)
    → Stored f m cmds t
    → All IsGiven ws
    → Args m args ws
    → dispatch f m cmds args ≡ some (expected t ws args)
unfolding dispatch
dispatch-expected [] [] cmds t f m s g a = refl
dispatch-expected [] (p ∷ args) cmds t f m s g a = elim a [ ]
dispatch-expected (w ∷ ws) [] cmds t f m s g a = elim a [ ]
dispatch-expected (w ∷ ws) (p ∷ args) cmds t f m s g a =
    ap (Option.map (outcome p (p ∷ args))) (handle_command-lookup cmds t f m p w s g.0 a.0)

command_line-split :
    (f : ℕ) (m m' : Bytes) (cmds : List Command) (buf : Ptr) (args : List Ptr) (o : Outcome)
    → m buf ≢ 0
    → split f f max_args m buf ≡ cut m' args
    → dispatch f m' cmds args ≡ some o
    → command_line f m cmds buf ≡ some (acted m' o)
unfolding command_line hand_on
command_line-split f m m' cmds buf args o n e d = ground (arith, n, e, d)

command_line_overrun :
    (f : ℕ) (m : Bytes) (cmds : List Command) (buf : Ptr)
    → m buf ≢ 0
    → split f f max_args m buf ≡ overrun
    → command_line f m cmds buf ≡ some smashed
unfolding command_line hand_on
command_line_overrun f m cmds buf n e = ground (arith, n, e)

command_line_empty :
    (f : ℕ) (m : Bytes) (cmds : List Command) (buf : Ptr)
    → m buf ≡ 0
    → command_line f m cmds buf ≡ some (acted m skipped)
unfolding command_line
command_line_empty f m cmds buf e = ground (arith, e)

-- A line of at most eight words that was handled.
pub record Served (t : Table) (cs : List ℕ) (result : Option Handling) : Type 0 where
  pub few : length (words cs) ≤ max_args
  pub after : Bytes
  pub args : List Ptr
  pub eq : result ≡ some (acted after (expected t (words cs) args))
  pub stand : Args after args (words cs)

-- A line of text that stands at `buf`, outside the names of the command table, is handled in full
-- if it has at most eight words. A line without a word is skipped. Otherwise the command is called
-- that the table has first under the name that the first word is, in all its bytes, and the command
-- is unknown if there is no such name. The arguments are the words of the line in their order, the
-- first one included. A line of more words overwrites the stack.
pub command_line-Served :
    (f : ℕ) (cs : List ℕ) (m : Bytes) (buf : Ptr) (cmds : List Command) (t : Table)
    → Holds m buf cs
    → length cs < f
    → Stored f m cmds t
    → Apart buf (length cs) cmds t
    → Served t cs (command_line f m cmds buf)
      ⊎ ((max_args < length (words cs)) × (command_line f m cmds buf ≡ some smashed))
command_line-Served f [] m buf cmds t h lt s a = inl (record {
  few = omega arith;
  after = m;
  args = [];
  eq = command_line_empty f m cmds buf h;
  stand = tt;
})
command_line-Served f (c ∷ cs) m buf cmds t h lt s a =
    let first : m buf ≢ 0 = λ z. h.1 (sym h.0 ∙ z) in
    elim (split-words f (c ∷ cs) m buf h lt) [
      | inl r ↦ inl (record {
        few = r.few;
        after = r.after;
        args = r.args;
        eq =
            command_line-split f m r.after cmds buf r.args (expected t (words (c ∷ cs)) r.args)
              first r.eq
              (dispatch-expected (words (c ∷ cs)) r.args cmds t f r.after
                (Stored-kept cmds t f m r.after buf (length (c ∷ cs)) r.kept a s)
                (words-IsGiven (c ∷ cs)) r.stand);
        stand = r.stand;
      })
      | inr (more, e) ↦ inr (more, command_line_overrun f m cmds buf first e)
    ]
