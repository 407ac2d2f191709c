-- ===== src/Console/Commands.antt =====
-- user/console.c: the commands of the default configuration. A command prints on standard output;
-- those that call the kernel do it through the stubs.
use mathlib.Core.Option
use ertos.Base.{
  ℕ, zero, suc, ◌+◌, ◌%◌, not, Ptr, Store, write, List, [], ◌∷◌, Option, none, some, length, get_or,
  ◌==◌, leb, if◌then◌else◌, u32_mod,
}
use ertos.CString.{Bytes, atoi}
use ertos.Stdio.{Out, Arg, int, str, printf, puts}
use ertos.Proc.{Proc, State, active, run, sleep, killed, Kernel}
use ertos.Syscall.{Sys, Alarm}
use ertos.Stubs.{alarm, kstat_get, reset}

-- `printf` without its count.
unfoldable pub say : Out → (fmt : List ℕ) → List Arg → Option Out
unfolding printf
say o fmt args = Option.map (λ r. r.1) (printf o fmt args 0)

-- The text of a process's state in `cmd_ps`.
abbrev pub state_text : State → List ℕ
state_text active = b'A' ∷ b'C' ∷ b'T' ∷ b'I' ∷ b'V' ∷ b'E' ∷ 9 ∷ []
state_text run = b'R' ∷ b'U' ∷ b'N' ∷ 9 ∷ []
state_text sleep = b'S' ∷ b'L' ∷ b'E' ∷ b'E' ∷ b'P' ∷ 9 ∷ []
state_text killed = b'K' ∷ b'I' ∷ b'L' ∷ b'L' ∷ b'E' ∷ b'D' ∷ 9 ∷ []

-- A line of `cmd_ps`.
unfoldable pub ps_line : Out → Proc → Option Out
unfolding say Option.bind
ps_line o p = Option.bind (say o (b'0' ∷ b'x' ∷ b'%' ∷ b'x' ∷ 9 ∷ []) (int p.pid ∷ [])) λ o1.
    Option.bind (say o1 (state_text p.state) [])
      λ o2. say o2 (b'%' ∷ b's' ∷ 13 ∷ 10 ∷ []) (str p.name ∷ [])

-- The loop of `cmd_ps`, on fuel.
unfoldable pub ps_loop : ℕ → Store Proc → (p op : Ptr) → Out → Option Out
unfolding ps_line
ps_loop zero h p op o = none
ps_loop (suc f) h p op o = elim (ps_line o (h p)) [
  | none ↦ none
  | some o1 ↦ if (h p).link == op then some o1 else ps_loop f h (h p).link op o1
]

-- The heading of `cmd_ps`.
unfoldable pub ps_heading : Out → Option Out
unfolding say
ps_heading o =
    say o
      (b'P' ∷ b'I' ∷ b'D' ∷ 9 ∷ b'S' ∷ b't' ∷ b'a' ∷ b't' ∷ b'e' ∷ 9 ∷ b'N' ∷ b'a' ∷ b'm' ∷ b'e'
        ∷ 13 ∷ 10 ∷ [])
      []

-- `cmd_ps`
unfoldable pub cmd_ps : ℕ → Kernel → Out → Option Out
unfolding ps_heading ps_loop Option.bind
cmd_ps f k o = Option.bind (ps_heading o) λ o1. ps_loop f k.proc k.cur k.cur o1

-- What stands in front of a byte of `cmd_dumpmem`: the address, or a gap.
unfoldable pub dump_lead : (addr x : ℕ) → Out → Option Out
unfolding say
dump_lead addr x o =
    if x == 0
    then say o (b'%' ∷ b'x' ∷ b'|' ∷ b' ' ∷ []) (int addr ∷ [])
    else if x == 4
    then say o (b' ' ∷ b' ' ∷ b' ' ∷ []) []
    else some o

-- A byte of `cmd_dumpmem`, with a new line behind the eighth of a line.
unfoldable pub dump_byte : Bytes → (addr x : ℕ) → Out → Option Out
unfolding dump_lead say Option.bind puts
dump_byte m addr x o = Option.bind (dump_lead addr x o) λ o1.
    Option.map (λ o2. if leb 8 (x + 1) then puts o2 [] else o2)
      (say o1 (b'%' ∷ b'x' ∷ b' ' ∷ []) (int (m addr) ∷ []))

-- The loop of `cmd_dumpmem`; `addr` is the bit pattern of the `int`.
unfoldable pub dump_loop : (len : ℕ) → Bytes → (addr x : ℕ) → Out → Option Out
unfolding dump_byte
dump_loop zero m addr x o = some o
dump_loop (suc len) m addr x o = elim (dump_byte m addr x o) [
  | none ↦ none
  | some o1 ↦ dump_loop len m ((addr + 1) % u32_mod) (if leb 8 (x + 1) then 0 else x + 1) o1
]

-- The rounds of `while (len-- > 0)` on the bit pattern of an `int`: none for a negative one.
abbrev pub rounds : ℕ → ℕ
rounds len = if leb 0x80000000 len then 0 else len

-- The heading of `cmd_dumpmem`.
unfoldable pub dump_heading : (addr len : ℕ) → Out → Option Out
unfolding say
dump_heading addr len o =
    say o
      (b'd' ∷ b'u' ∷ b'm' ∷ b'p' ∷ b'i' ∷ b'n' ∷ b'g' ∷ b' ' ∷ b'0' ∷ b'x' ∷ b'%' ∷ b'x' ∷ b'+'
        ∷ b'0' ∷ b'x' ∷ b'%' ∷ b'x' ∷ 13 ∷ 10 ∷ 13 ∷ 10 ∷ [])
      (int addr ∷ (int len ∷ []))

-- `if (len == 0) len = 16`
abbrev pub dump_length : ℕ → ℕ
dump_length len = if len == 0 then 16 else len

-- `cmd_dumpmem` behind its test.
unfoldable pub dump : Bytes → (addr len : ℕ) → Out → Option Out
unfolding dump_heading dump_loop Option.bind puts
dump m addr len o =
    Option.bind (dump_heading addr (dump_length len) o)
      λ o1. Option.map (λ o2. puts o2 []) (dump_loop (rounds (dump_length len)) m addr 0 o1)

-- `cmd_dumpmem`; the fuel bounds the digits of its arguments.
unfoldable pub cmd_dumpmem : ℕ → Bytes → (argv : List Ptr) → Out → Option Out
unfolding dump Option.bind puts
cmd_dumpmem f m argv o =
    if length argv == 3
    then (Option.bind (atoi f m (get_or argv 1 0))
        λ addr. Option.bind (atoi f m (get_or argv 2 0)) λ len. dump m addr len o)
    else some (
        puts o (
          b'd' ∷ b'u' ∷ b'm' ∷ b'p' ∷ b'm' ∷ b'e' ∷ b'm' ∷ b' ' ∷ b'<' ∷ b'a' ∷ b'd' ∷ b'd' ∷ b'r'
          ∷ b'>' ∷ b' ' ∷ b'<' ∷ b'l' ∷ b'e' ∷ b'n' ∷ b'>' ∷ []))

-- A line behind a system call.
unfoldable pub reply : Sys → Option Out → Option (Sys × Out)
reply s none = none
reply s (some o) = some (s, o)

-- `cmd_alarm` behind its test; `a` is the address of its `struct alarm`.
unfoldable pub arm :
    (fuel : ℕ) (kernel_self handle_alarm a : Ptr) (msec oneshot : ℕ)
    → Sys
    → Out
    → Option (Sys × Out)
unfolding alarm say reply Option.bind
arm fuel kernel_self handle_alarm a msec oneshot s o =
    let v : Alarm = record { msec = msec; handler = handle_alarm; oneshot = not (oneshot == 0) } in
    Option.bind (alarm fuel kernel_self (record s { alarms = write s.alarms a v }) a) λ r.
      reply r.1 (
        say o
          (b'a' ∷ b'l' ∷ b'a' ∷ b'r' ∷ b'm' ∷ b' ' ∷ b'a' ∷ b'r' ∷ b'm' ∷ b'e' ∷ b'd' ∷ 13 ∷ 10
            ∷ [])
          [])

-- `cmd_alarm`
unfoldable pub cmd_alarm :
    (fuel : ℕ) (kernel_self handle_alarm a : Ptr)
    → ℕ
    → Bytes
    → (argv : List Ptr) → Sys
    → Out
    → Option (Sys × Out)
unfolding arm say reply Option.bind
cmd_alarm fuel kernel_self handle_alarm a f m argv s o =
    if length argv == 3
    then (Option.bind (atoi f m (get_or argv 1 0)) λ msec.
        Option.bind (atoi f m (get_or argv 2 0))
          λ oneshot. arm fuel kernel_self handle_alarm a msec oneshot s o)
    else reply s (
        say o
          (b'a' ∷ b'l' ∷ b'a' ∷ b'r' ∷ b'm' ∷ b' ' ∷ b'<' ∷ b'm' ∷ b's' ∷ b'e' ∷ b'c' ∷ b'>' ∷ b' '
            ∷ b'<' ∷ b'o' ∷ b'n' ∷ b'e' ∷ b's' ∷ b'h' ∷ b'o' ∷ b't' ∷ b'>' ∷ 13 ∷ 10 ∷ [])
          [])

-- `cmd_reset`
unfoldable pub cmd_reset : (fuel : ℕ) (kernel_self : Ptr) → Sys → Out → Option (Sys × Out)
unfolding reset say reply Option.bind
cmd_reset fuel kernel_self s o = Option.bind (reset fuel kernel_self s) λ r. reply r.1 (
    say o
      (b'r' ∷ b'e' ∷ b's' ∷ b'e' ∷ b't' ∷ b' ' ∷ b'f' ∷ b'a' ∷ b'i' ∷ b'l' ∷ b'e' ∷ b'd' ∷ b'!'
        ∷ b'?' ∷ 13 ∷ 10 ∷ [])
      [])

-- What `cmd_kstat` prints about the number that `kstat_get` returns.
unfoldable pub kstat_text : (rc recursion : ℕ) → Out → Option Out
unfolding say
kstat_text rc recursion o =
    if rc == 9
    then say o
        (b'I' ∷ b'S' ∷ b'R' ∷ b' ' ∷ b'r' ∷ b'e' ∷ b'c' ∷ b'u' ∷ b'r' ∷ b's' ∷ b'i' ∷ b'o' ∷ b'n'
          ∷ b's' ∷ b' ' ∷ b'p' ∷ b'r' ∷ b'e' ∷ b'v' ∷ b'e' ∷ b'n' ∷ b't' ∷ b'e' ∷ b'd' ∷ b':' ∷ b' '
          ∷ b'%' ∷ b'd' ∷ 13 ∷ 10 ∷ [])
        (int recursion ∷ [])
    else say o
        (b'k' ∷ b's' ∷ b't' ∷ b'a' ∷ b't' ∷ b'_' ∷ b'g' ∷ b'e' ∷ b't' ∷ b':' ∷ b' ' ∷ b'%' ∷ b'd'
          ∷ 13 ∷ 10 ∷ [])
        (int rc ∷ [])

-- `cmd_kstat`; `lkstat` is the address of its structure.
unfoldable pub cmd_kstat : (fuel : ℕ) (kernel_self lkstat : Ptr) → Sys → Out → Option (Sys × Out)
unfolding kstat_get kstat_text reply Option.bind
cmd_kstat fuel kernel_self lkstat s o =
    Option.bind (kstat_get fuel kernel_self s lkstat)
      λ r. reply r.1 (kstat_text r.0 (r.1.kstats lkstat) o)

-- `cmd_help`, for the names and the descriptions of the command table.
unfoldable pub cmd_help : List (List ℕ × List ℕ) → Out → Option Out
unfolding say
cmd_help [] o = some o
cmd_help ((name, description) ∷ commands) o =
    elim (say o (b'%' ∷ b's' ∷ b' ' ∷ b'-' ∷ b' ' ∷ b'%' ∷ b's' ∷ 13 ∷ 10 ∷ [])
      (str name ∷ (str description ∷ []))) [ none ↦ none | some o1 ↦ cmd_help commands o1 ]
