-- ===== src/Stdio.antt =====
-- Standard output and line input: lib/stdio.c. The calls of `cons_write` are kept as a trace, with
-- what each is given; what becomes of that on the line is Uart's matter, and its result is dropped
-- here as it is in the code. What `cons_read` answers is a list of events. The line that is read
-- stands in the memory.
pub mod Buffer
pub mod Decimal
pub mod Input
pub mod Stored
mod Tests
use mathlib.Core.List.{reverse}
use ertos.CString.{Bytes}
use ertos.Base.{
  Ptr, write, ℕ, zero, suc, ◌+◌, ◌-◌, ◌*◌, ◌/◌, ◌%◌, Bool, true, false, not, ◌&&◌, ◌||◌, List, [],
  ◌∷◌, ◌++◌, Option, none, some, length, ltb, leb, ◌==◌, if◌then◌else◌, u32_mod,
}

abbrev pub stdout_size : ℕ
stdout_size = 1024

-- `self->stdout`, its buffer up to `idx`, and the bytes that each call of `cons_write` was given so
-- far, the first call first.
pub record Out : Type 0 where
  pub buf : List ℕ
  pub buf_enable : Bool
  pub buf_last : Bool
  pub calls : List (List ℕ)

-- `flush`: a call of `cons_write`, whose result nothing looks at.
unfoldable pub flush : Out → Out
flush o = record o { buf = []; calls = o.calls ++ (o.buf ∷ []) }

-- The buffered half of `putchar`.
unfoldable pub queue_char : Out → ℕ → Out
queue_char o c =
    let o1 = if leb stdout_size (length o.buf) then flush o else o in
    let o2 = record o1 { buf = o1.buf ++ (c ∷ []) } in if c == 10 then flush o2 else o2

-- `putchar`
unfoldable pub putchar : Out → ℕ → Out
putchar o c =
    if o.buf_enable then queue_char o c else record o { calls = o.calls ++ ((c ∷ []) ∷ []) }

-- `_puts`
unfoldable pub put_all : Out → List ℕ → Out
unfolding putchar
put_all o [] = o
put_all o (c ∷ s) = put_all (putchar o c) s

-- `puts`
unfoldable pub puts : Out → List ℕ → Out
unfolding put_all
puts o s = putchar (putchar (put_all o s) 13) 10

-- A digit of `puthexchar`.
abbrev pub hex_digit : ℕ → ℕ
hex_digit n = if ltb 9 n then n - 10 + b'A' else n + b'0'

-- `puthexchar`
unfoldable pub puthexchar : Out → ℕ → Out
unfolding putchar
puthexchar o c = putchar (putchar o (hex_digit (c / 16))) (hex_digit (c % 16))

-- `while (d > 0) { buf[i++] = (d % 10) + '0'; d /= 10; }`: the digits, the last one first. On fuel;
-- `d` is the bit pattern of an `int`, and a negative one has none.
unfoldable pub digits : ℕ → ℕ → List ℕ
digits zero d = []
digits (suc f) d =
    let rest = digits f (d / 10) in
    if d == 0 || leb 0x80000000 d then [] else (d % 10 + b'0') ∷ rest

-- What `printf_d` prints, and how many digits it counts.
unfoldable pub decimal : ℕ → List ℕ
unfolding digits
decimal d =
    if d == 0
    then b'0' ∷ []
    else if leb 0x80000000 d
    then b'-' ∷ reverse (digits 10 (u32_mod - d))
    else reverse (digits 10 d)

-- `printf_d`
unfoldable pub printf_d : Out → ℕ → ℕ × Out
unfolding decimal put_all
printf_d o d = (
  (if d == 0 then 1 else length (digits 10 (if leb 0x80000000 d then u32_mod - d else d))),
  put_all o (decimal d),
)

-- One byte of `printf_x`, printed unless it and all before it are 0.
unfoldable pub hex_byte : ℕ × Out → ℕ → ℕ × Out
unfolding puthexchar
hex_byte (n, o) c = if not (c == 0) || not (n == 0) then (n + 2, puthexchar o c) else (n, o)

-- `printf_x`
unfoldable pub printf_x : Out → ℕ → ℕ × Out
unfolding hex_byte
printf_x o x =
    let (n, o1) =
      hex_byte
        (hex_byte (hex_byte (hex_byte (0, o) (x / 16777216 % 256)) (x / 65536 % 256))
          (x / 256 % 256))
        (x % 256) in
    if n == 0 then (1, putchar o1 b'0') else (n, o1)

-- An argument of `printf`.
pub data Arg : Type 0 where
  int : ℕ → Arg
  str : List ℕ → Arg

-- A conversion at the head of a format: `%`, the character behind it, and the next argument.
-- `none`: the argument is missing or of the other type.
unfoldable pub convert : Out → ℕ → List Arg → Option (ℕ × Out × List Arg)
unfolding printf_d printf_x put_all putchar
convert o c [] = if c == b'd' || c == b'x' || c == b's' then none else some (0, putchar o c, [])
convert o c (int d ∷ args) =
    if c == b'd'
    then some ((printf_d o d).0, (printf_d o d).1, args)
    else if c == b'x'
    then some ((printf_x o d).0, (printf_x o d).1, args)
    else if c == b's'
    then none
    else some (0, putchar o c, int d ∷ args)
convert o c (str s ∷ args) =
    if c == b's'
    then some (0, put_all o s, args)
    else if c == b'd' || c == b'x'
    then none
    else some (0, putchar o c, str s ∷ args)

-- `printf`, the count of characters and the output. A format that ends in `%` is read past its
-- end, which is `none` too.
unfoldable pub printf : Out → (fmt : List ℕ) → List Arg → (chars : ℕ) → Option (ℕ × Out)
unfolding convert
printf o [] args chars = some (chars, o)
printf o (c ∷ []) args chars = if c == b'%' then none else some (chars + 1, putchar o c)
printf o (c ∷ (e ∷ fmt)) args chars =
    let plain = printf (putchar o c) (e ∷ fmt) args (chars + 1) in
    if c == b'%'
    then elim (convert o e args) [
      | none ↦ none
      | some (n, o1, args1) ↦ printf o1 fmt args1 (chars + n)
    ]
    else plain

-- What `cons_read` answers: a byte, 0 for no byte yet, or an error.
pub data Event : Type 0 where
  char : ℕ → Event
  empty : Event
  failed : Event

-- `getchar`; `none` waits for a byte that does not come.
pub getchar : List Event → Option (Option ℕ)
getchar [] = none
getchar (failed ∷ es) = some none
getchar (empty ∷ es) = getchar es
getchar (char c ∷ es) = some (some c)

-- `"\b \b"`
abbrev pub rubout : List ℕ
rubout = 8 ∷ b' ' ∷ 8 ∷ []

-- CTRL_U: every character that was typed is rubbed out.
unfoldable pub rub_all : Out → (typed : ℕ) → Out
unfolding put_all
rub_all o zero = o
rub_all o (suc n) = rub_all (put_all o rubout) n

-- The variables of `gets`: `s`, and the count left in `size`, with the memory and the output.
pub record Reading : Type 0 where
  pub out : Out
  pub mem : Bytes
  pub s : Ptr
  pub size : ℕ

-- The switch of `gets`.
unfoldable pub edit : (orig_s : Ptr) → Reading → (c : ℕ) → Reading
unfolding rub_all
edit orig_s g c =
    if c == 13 || c == 10
    then g
    else if c == 8
    then (if ltb orig_s g.s then record g { out = put_all g.out rubout; s = g.s - 1 } else g)
    else if c == 0x15
    then record g { out = rub_all g.out (g.s - orig_s); s = orig_s }
    else record g { out = putchar g.out c; mem = write g.mem g.s c; s = g.s + 1; size = g.size - 1 }

-- The loop of `gets`, for a `size` of at least 1; `c`, which is tested before it is first set if no
-- byte is there at once, is taken not to be a line end then. `none` waits for a byte that does not
-- come. The result is whether the line was read, rather than an error met.
unfoldable pub gets_loop : (orig_s : Ptr) → Reading → List Event → Option (Bool × Reading)
unfolding edit
gets_loop orig_s g [] = none
gets_loop orig_s g (failed ∷ es) = some (false, g)
gets_loop orig_s g (empty ∷ es) = gets_loop orig_s g es
gets_loop orig_s g (char c ∷ es) =
    let g1 = edit orig_s g c in
    let rest = gets_loop orig_s g1 es in
    if c == 10 || c == 13 || g1.size == 0 then some (true, g1) else rest

-- `stdio_buf_disable`
unfoldable pub buf_disable : Out → Out
buf_disable o = record o { buf_last = o.buf_enable; buf_enable = false }

-- `stdio_buf_enable`
unfoldable pub buf_enabled : Out → Out
buf_enabled o = record o { buf_last = o.buf_enable; buf_enable = true }

-- `stdio_buf_restore`
unfoldable pub buf_restore : Out → Out
buf_restore o = record o { buf_enable = o.buf_last }

-- The end of `gets`: the terminator `*s = '\0'`, but not on an error. The result is `rp`, where
-- `none` is NULL.
unfoldable pub gets_end :
    (orig_s : Ptr) → Option (Bool × Reading) → Option (Option Ptr × Bytes × Out)
unfolding buf_restore
gets_end orig_s none = none
gets_end orig_s (some (false, g)) = some (none, g.mem, buf_restore g.out)
gets_end orig_s (some (true, g)) = some (some orig_s, write g.mem g.s 0, buf_restore g.out)

-- `gets`
unfoldable pub gets :
    Out → Bytes → (s : Ptr) → (size : ℕ) → List Event → Option (Option Ptr × Bytes × Out)
unfolding buf_disable gets_end gets_loop
gets o m s size es =
    gets_end s (gets_loop s (record { out = buf_disable o; mem = m; s = s; size = size }) es)
