-- ===== src/Console.antt =====
-- user/console.c: the command line. A line that `gets` has stored is cut into words in place, and
-- the first word names the command. The memory is the one of lib/string.c's functions. The fuel
-- bounds the length of the line.
pub mod Blanks
pub mod Calls
pub mod Commands
pub mod Dispatch
pub mod Dump
pub mod Line
pub mod Ps
pub mod Round
pub mod Split
mod Tests
pub mod Typed
use mathlib.Core.Option
use ertos.Base.{
  ℕ, zero, suc, ◌+◌, Bool, true, false, ◌||◌, not, Ptr, write, List, [], ◌∷◌, Option, none, some,
  ◌==◌, if◌then◌else◌,
}
use ertos.Base.Int.{ℤ, pos, negsuc}
use ertos.CString.{Bytes, strcmp}
use ertos.Stdio.{Out, Event, printf, puts, gets, buf_disable, buf_enabled}

-- `MAX_ARGS`
abbrev pub max_args : ℕ
max_args = 8

-- `isspace`
abbrev pub is_space : ℕ → Bool
is_space c = c == b' ' || c == 9 || c == 13 || c == 10 || c == 12 || c == 11

-- `while (isspace(*p)) *p++ = '\0'`
unfoldable pub skip_blanks : ℕ → Bytes → Ptr → Option (Bytes × Ptr)
skip_blanks zero m p = none
skip_blanks (suc f) m p =
    let rest = skip_blanks f (write m p 0) (p + 1) in if is_space (m p) then rest else some (m, p)

-- `while (!isspace(*p) && *p != '\0') ++p`
unfoldable pub skip_word : ℕ → Bytes → Ptr → Option Ptr
skip_word zero m p = none
skip_word (suc f) m p =
    let rest = skip_word f m (p + 1) in if is_space (m p) || m p == 0 then some p else rest

-- What the loop that breaks up the arguments comes to: the memory and the `argc` pointers of
-- `argv`; or a store behind the last entry of `argv`, after which nothing is known of the stack; or
-- no fuel.
pub data Cutting : Type 0 where
  cut : Bytes → (argv : List Ptr) → Cutting
  overrun : Cutting
  starved : Cutting

-- `argv[argc++] = p`, before the arguments behind it.
unfoldable pub with_arg : Ptr → Cutting → Cutting
with_arg p (cut m args) = cut m (p ∷ args)
with_arg p overrun = overrun
with_arg p starved = starved

-- The loop of `console_task` that breaks up the arguments, with a terminator in the place of each
-- blank. `slots` are the entries of `argv` that are left; the code does not count them. `rounds`
-- bounds the words, `f` the two inner loops.
unfoldable pub split : (rounds f slots : ℕ) → Bytes → Ptr → Cutting
unfolding skip_blanks skip_word with_arg
split zero f slots m p = starved
split (suc rounds) f slots m p = if m p == 0 then cut m [] else elim (skip_blanks f m p) [
  | none ↦ starved
  | some (m1, p1) ↦ if m1 p1 == 0 then cut m1 [] else elim slots [
    | zero ↦ overrun
    | suc left ↦ elim (skip_word f m1 p1) [
      | none ↦ starved
      | some p2 ↦ with_arg p1 (split rounds f left m1 p2)
    ]
  ]
]

-- The functions of the command table.
pub data Func : Type 0 where
  cmd_help : Func
  cmd_alarm : Func
  cmd_dumpmem : Func
  cmd_exit : Func
  cmd_kstat : Func
  cmd_ps : Func
  cmd_reset : Func

-- `struct command`, less the description that `cmd_help` prints.
pub record Command : Type 0 where
  pub name : Ptr
  pub func : Func

-- `!x`
abbrev pub is_zero : ℤ → Bool
is_zero (pos zero) = true
is_zero (pos (suc n)) = false
is_zero (negsuc n) = false

-- The search of `handle_command`: the first entry whose name `argv[0]` is, if there is one. The
-- outer `none`: `strcmp` did not end.
unfoldable pub handle_command : ℕ → Bytes → List Command → (argv0 : Ptr) → Option (Option Func)
handle_command f m [] argv0 = some none
handle_command f m (cmd ∷ cmds) argv0 =
    let rest = handle_command f m cmds argv0 in
    elim (strcmp f m cmd.name argv0) [
      | none ↦ none
      | some d ↦ if is_zero d then some (some cmd.func) else rest
    ]

-- What `console_task` does with a line.
pub data Outcome : Type 0 where
  skipped : Outcome
  unknown : (argv0 : Ptr) → Outcome
  called : Func → (argv : List Ptr) → Outcome

unfoldable pub outcome : (argv0 : Ptr) → (argv : List Ptr) → Option Func → Outcome
outcome argv0 argv none = unknown argv0
outcome argv0 argv (some func) = called func argv

-- `handle_command(argc, argv)`, unless there is no argument.
unfoldable pub dispatch : ℕ → Bytes → List Command → (argv : List Ptr) → Option Outcome
unfolding handle_command outcome
dispatch f m commands [] = some skipped
dispatch f m commands (argv0 ∷ argv) =
    Option.map (outcome argv0 (argv0 ∷ argv)) (handle_command f m commands argv0)

-- What comes of a line behind `gets`: the memory after it and what was called, or a stack that is
-- overwritten.
pub data Handling : Type 0 where
  acted : Bytes → Outcome → Handling
  smashed : Handling

-- The arguments handed on.
unfoldable pub hand_on : ℕ → List Command → Cutting → Option Handling
unfolding dispatch
hand_on f commands (cut m argv) = Option.map (λ act. acted m act) (dispatch f m commands argv)
hand_on f commands overrun = some smashed
hand_on f commands starved = none

-- A round of `console_task` behind `gets`.
unfoldable pub command_line : ℕ → Bytes → List Command → (buf : Ptr) → Option Handling
unfolding split hand_on
command_line f m commands buf =
    if m buf == 0 then some (acted m skipped) else hand_on f commands (split f f max_args m buf)

-- What a round of `console_task` comes to.
pub data Turn : Type 0 where
  failed_line : Out → Bytes → Turn
  handled : Out → Handling → Turn

-- A round of `console_task` once `gets` has returned. `f` is the fuel of `command_line`.
-- `stdio_buf_enable` comes after the test for an empty line.
unfoldable pub with_line :
    ℕ → List Command → (buf : Ptr) → Option (Option Ptr × Bytes × Out) → Option Turn
unfolding puts command_line buf_enabled
with_line f commands buf none = none
with_line f commands buf (some (none, m, o)) = some (
    failed_line
      (puts o (
        b'e' ∷ b'r' ∷ b'r' ∷ b'o' ∷ b'r' ∷ b' ' ∷ b'r' ∷ b'e' ∷ b'a' ∷ b'd' ∷ b'i' ∷ b'n' ∷ b'g'
        ∷ b' ' ∷ b's' ∷ b't' ∷ b'r' ∷ b'i' ∷ b'n' ∷ b'g' ∷ []))
      m)
with_line f commands buf (some (some line, m, o)) =
    let o1 = puts o [] in
    let o2 = if m buf == 0 then o1 else buf_enabled o1 in
    Option.map (λ h. handled o2 h) (command_line f m commands buf)

-- A round of `console_task` with the ticker done, for the answers of `cons_read` while it reads
-- its line. `none` waits for a byte that does not come, or has no fuel.
unfoldable pub console_round :
    ℕ → Bytes → List Command → (buf : Ptr) → List Event → Out → Option Turn
unfolding buf_disable with_line gets printf
console_round f m commands buf es o = elim (printf (buf_disable o) (b'>' ∷ b' ' ∷ []) [] 0) [
  | none ↦ none
  | some (n, o1) ↦ with_line f commands buf (gets o1 m buf 128 es)
]
