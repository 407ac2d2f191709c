-- ===== src/Console/Tests.antt =====
-- Lines and commands.
use ertos.Base.{write}
use ertos.Base.{
  ℕ, ◌≡◌, ◌<◌, ◌⊎◌, inl, refl, arith, [], ◌∷◌, ◌++◌, List, map, some, true, ◌==◌, if◌then◌else◌,
  length,
}
use ertos.CString.{Bytes, atoi}
use ertos.CString.Number.{Stands, atoi-plain}
use ertos.Stdio.{Out, char}
use ertos.System.Samples.{start, kernel}
use ertos.Console.{
  Command, cmd_ps, cmd_kstat, split, console_round, called, outcome, max_args, overrun,
}
use ertos.Console.Line.{Holds, words}
use ertos.Console.Split.{Fitted, split-words}
use ertos.Console.Dispatch.{Table, Stored}
use ertos.Console.Round.{expected}
use ertos.Console.Typed.{Answered, console_round-Answered}
use ertos.Console.Commands
use ertos.Console.Ps.{Rows, cmd_ps-Rows}
use ertos.Console.Calls.{Armed, cmd_alarm-Armed}
use ertos.Sched.Cycle.{Cycle}

-- The names "ps" at 10 and "kstat" at 20, the line " ps x" at 100, and "25" at 200.
abbrev memory : Bytes
memory a =
    if a == 10
    then b'p'
    else if a == 11
    then b's'
    else if a == 20
    then b'k'
    else if a == 21
    then b's'
    else if a == 22
    then b't'
    else if a == 23
    then b'a'
    else if a == 24
    then b't'
    else if a == 100
    then b' '
    else if a == 101
    then b'p'
    else if a == 102
    then b's'
    else if a == 103
    then b' '
    else if a == 104
    then b'x'
    else if a == 200
    then b'2'
    else if a == 201
    then b'5'
    else 0

abbrev line : List ℕ
line = b' ' ∷ b'p' ∷ b's' ∷ b' ' ∷ b'x' ∷ []

line_holds : Holds memory 100 line
line_holds = (
  refl,
  ground arith,
  (refl, ground arith, (refl, ground arith, (refl, ground arith, (refl, ground arith, refl)))),
)

-- The line has two words.
line_words : words line ≡ (b'p' ∷ b's' ∷ []) ∷ (b'x' ∷ []) ∷ []
line_words = refl

split-words_example :
    Fitted memory 100 line (split 6 6 max_args memory 100)
    ⊎ ((max_args < length (words line)) × (split 6 6 max_args memory 100 ≡ overrun))
split-words_example = split-words 6 line memory 100 line_holds (omega arith)

abbrev commands : List Command
commands = (record { name = 20; func = cmd_kstat }) ∷ (record { name = 10; func = cmd_ps }) ∷ []

abbrev table : Table
table = (b'k' ∷ b's' ∷ b't' ∷ b'a' ∷ b't' ∷ [], cmd_kstat) ∷ ((b'p' ∷ b's' ∷ [], cmd_ps) ∷ [])

stored : Stored 6 memory commands table
stored = (
  refl,
  tt,
  omega arith,
  (
    refl,
    ground arith,
    (refl, ground arith, (refl, ground arith, (refl, ground arith, (refl, ground arith, refl)))),
  ),
  (refl, tt, omega arith, (refl, ground arith, (refl, ground arith, refl)), tt),
)

abbrev out : Out
out = record { buf = []; buf_enable = true; buf_last = true; calls = [] }

-- The line is typed, and `cmd_ps` is called with its two words.
console_round-Answered_example :
    Answered table line (console_round 6 memory commands 300 (map char line ++ (char 13 ∷ [])) out)
console_round-Answered_example =
    console_round-Answered 6 line memory 300 commands table out
      (refl, (refl, (refl, (refl, (refl, tt)))))
      ((ground arith), ((ground arith), ((ground arith), ((ground arith), ((ground arith), tt)))))
      (omega arith) (omega arith) stored (inl (omega arith), (inl (omega arith), tt))

line_calls : expected table (words line) (301 ∷ 304 ∷ []) ≡ called cmd_ps (301 ∷ 304 ∷ [])
unfolding outcome
line_calls = refl

cycle : Cycle kernel.proc 1 (2 ∷ 3 ∷ [])
unfolding write
cycle = record { chain = (refl, (refl, refl)); distinct = (refl, (refl, (refl, tt))) }

-- Three lines.
cmd_ps-Rows_example :
    (o1 o' : Out) × (Commands.cmd_ps 3 kernel out ≡ some o')
    × (Commands.ps_heading out ≡ some o1)
    × Rows kernel.proc (1 ∷ 2 ∷ 3 ∷ []) o1 o'
cmd_ps-Rows_example = cmd_ps-Rows 3 kernel (2 ∷ 3 ∷ []) out cycle (omega arith)

twenty_five-Stands : Stands memory 200 (b'2' ∷ b'5' ∷ [])
twenty_five-Stands = record { at = λ i lt. ground arith; ends = refl }

twenty_five : atoi 3 memory 200 ≡ some 25
twenty_five =
    atoi-plain b'2' (b'5' ∷ []) 3 memory 200 (refl, (refl, tt)) twenty_five-Stands (omega arith)

-- 25 ms are two ticks.
cmd_alarm-Armed_example :
    Armed start 0x500 25 25
      (Commands.cmd_alarm 8 0x900 0x500 400 3 memory (10 ∷ 200 ∷ 200 ∷ []) start out)
cmd_alarm-Armed_example =
    cmd_alarm-Armed 8 3 0x900 0x500 400 10 200 200 25 25 memory start out twenty_five twenty_five
