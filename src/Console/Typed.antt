-- ===== src/Console/Typed.antt =====
-- A round of `console_task`, from the keys to the command.
use mathlib.Core.Option
use mathlib.Core.Path.{subst}
use ertos.Base.{
  inr, Option, ℕ, ◌+◌, ◌≡◌, ◌≢◌, ◌≤◌, ◌<◌, ◌∙◌, ◌⊎◌, inl, refl, ap, arith, Ptr, List, [], ◌∷◌, ◌++◌,
  map, length, some, All, write, write_self,
}
use ertos.CString.{Bytes}
use ertos.Stdio.{Out, Event, char, printf, gets, putchar, buf_disable}
use ertos.Stdio.Input.{IsPlain, gets_enter}
use ertos.Stdio.Stored.{stored, placed, stored-kept, stored_end}
use ertos.Console.{
  Command, Turn, Handling, acted, smashed, max_args, handled, with_line, console_round,
  command_line,
}
use ertos.Console.Line.{Holds, words}
use ertos.Console.Dispatch.{Table, Stored}
use ertos.Console.Round.{Apart, Stored-kept, Served, expected, command_line-Served}

-- The line stands where `gets` stored it.
stored-step :
    (c : ℕ) (cs : List ℕ) (m : Bytes) (p : Ptr)
    → stored (write m p c) (p + 1) cs ≡ stored m p (c ∷ cs)
stored-step c cs m p = ap (λ a. write (placed (write m p c) (p + 1) cs) a 0) (omega arith)

stored-Holds :
    (cs : List ℕ) (m : Bytes) (p : Ptr) → All (λ c. c ≢ 0) cs → Holds (stored m p cs) p cs
stored-Holds [] m p h = ap (stored m p []) (omega arith) ∙ stored_end [] m p
stored-Holds (c ∷ cs) m p h =
    subst (λ m'. Holds m' p (c ∷ cs)) (stored-step c cs m p)
      (
        stored-kept cs (write m p c) (p + 1) p (inl (omega arith)) ∙ write_self m p c,
        h.0,
        stored-Holds cs (write m p c) (p + 1) h.1,
      )

Apart-less :
    (cmds : List Command) (t : Table) (buf size less : ℕ)
    → less ≤ size
    → Apart buf size cmds t
    → Apart buf less cmds t
Apart-less [] t buf size less le h = tt
Apart-less (c ∷ cs) [] buf size less le h = tt
Apart-less (c ∷ cs) ((name, func) ∷ t) buf size less le (h, rest) =
    (ground (arith, h, le), Apart-less cs t buf size less le rest)

with_line-handled :
    (f : ℕ) (m : Bytes) (cmds : List Command) (buf : Ptr) (o : Out) (h : Handling)
    → command_line f m cmds buf ≡ some h
    → (o' : Out) × with_line f cmds buf (some (some buf, m, o)) ≡ some (handled o' h)
unfolding with_line
with_line-handled f m cmds buf o h e = (_, ap (Option.map (λ h. handled _ h)) e)

prompted :
    (f : ℕ) (m : Bytes) (cmds : List Command) (buf : Ptr) (es : List Event) (o : Out)
    → (o1 : Out) × console_round f m cmds buf es o ≡ with_line f cmds buf (gets o1 m buf 128 es)
unfolding console_round printf
prompted f m cmds buf es o = (putchar (putchar (buf_disable o) b'>') b' ', refl)

-- What a line that was typed comes to: it has at most eight words and is handled, or it has more
-- and the stack is overwritten.
pub record Answered (t : Table) (cs : List ℕ) (result : Option Turn) : Type 0 where
  pub out : Out
  pub handling : Handling
  pub eq : result ≡ some (handled out handling)
  pub served : Served t cs (some handling) ⊎ ((max_args < length (words cs)) × (handling ≡ smashed))

-- A line that is typed at the prompt, of at most 127 plain characters, none of them 0, and a
-- carriage return behind it, goes through `gets`, the loop that cuts it up and the search of the
-- command table, and all of them end. If the line has at most eight words, the command is called
-- whose name is the first word typed, with the words for its arguments, or it is unknown, or the
-- line is skipped if it has no word. If it has more, the stack behind `argv` is overwritten. The
-- names of the command table stand outside the 128 bytes of the line's buffer.
pub console_round-Answered :
    (f : ℕ) (cs : List ℕ) (m : Bytes) (buf : Ptr) (cmds : List Command) (t : Table) (o : Out)
    → All IsPlain cs
    → All (λ c. c ≢ 0) cs
    → length cs < 128
    → length cs < f
    → Stored f m cmds t
    → Apart buf 128 cmds t
    → Answered t cs (console_round f m cmds buf (map char cs ++ (char 13 ∷ [])) o)
console_round-Answered f cs m buf cmds t o p n short lt s a =
    let m1 = stored m buf cs in
    let kept : (x : Ptr) → (x < buf) ⊎ (buf + 128 ≤ x) → m1 x ≡ m x =
      λ x h. stored-kept cs m buf x (ground (arith, h, short)) in
    let (o1, e1) = prompted f m cmds buf (map char cs ++ (char 13 ∷ [])) o in
    let (o2, e2) = gets_enter o1 m buf cs 128 p short in
    let begun = e1 ∙ ap (with_line f cmds buf) e2 in
    elim (command_line-Served f cs m1 buf cmds t (stored-Holds cs m buf n) lt
      (Stored-kept cmds t f m m1 buf 128 kept a s)
      (Apart-less cmds t buf 128 (length cs) (omega (arith, short)) a)) [
        | inl r ↦
            let act = acted r.after (expected t (words cs) r.args) in
            let (o3, e3) = with_line-handled f m1 cmds buf o2 act r.eq in
            record {
              out = o3;
              handling = act;
              eq = begun ∙ e3;
              served = inl (record {
                few = r.few;
                after = r.after;
                args = r.args;
                eq = refl;
                stand = r.stand;
              });
            }
        | inr (more, e) ↦
            let (o3, e3) = with_line-handled f m1 cmds buf o2 smashed e in
            record { out = o3; handling = smashed; eq = begun ∙ e3; served = inr (more, refl) }
      ]
