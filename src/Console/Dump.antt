-- ===== src/Console/Dump.antt =====
-- `cmd_dumpmem`: its counter of bytes in a line, and the bytes it shows.

use mathlib.Core.Option
use ertos.Base.{
  ℕ, zero, suc, ◌+◌, ◌%◌, ◌≡◌, ◌<◌, ◌∙◌, refl, ap, arith, inl, inr, Bool-cases, [], ◌∷◌, some, ◌==◌,
  leb, if◌then◌else◌, u32_mod, Ptr,
}
use ertos.Base.Options.{bind_two, bind_ends}
use ertos.CString.{Bytes, atoi}
use ertos.Stdio.{Out, printf, convert, puts, int}
use ertos.Console.Commands.{
  say, dump_lead, dump_byte, dump_loop, dump, dump_heading, dump_length, rounds, cmd_dumpmem,
}

-- The bytes `i` to `i + n` behind `addr`, eight to a line, shown one behind the other, from `o` to
-- `o'`. Addresses are 32 bits wide.
abbrev pub Shown : Bytes → (addr i n : ℕ) → (o o' : Out) → Type 0
Shown m addr i zero o o' = o' ≡ o
Shown m addr i (suc n) o o' =
    (o1 : Out) × (dump_byte m ((addr + i) % u32_mod) (i % 8) o ≡ some o1)
    × Shown m addr (i + 1) n o1 o'

say_addr :
    (o : Out) (a : ℕ) → (o' : Out) × say o (b'%' ∷ b'x' ∷ b'|' ∷ b' ' ∷ []) (int a ∷ []) ≡ some o'
unfolding say printf convert
say_addr o a = (_, refl)

say_gap : (o : Out) → (o' : Out) × say o (b' ' ∷ b' ' ∷ b' ' ∷ []) [] ≡ some o'
unfolding say printf convert
say_gap o = (_, refl)

say_byte : (o : Out) (v : ℕ) → (o' : Out) × say o (b'%' ∷ b'x' ∷ b' ' ∷ []) (int v ∷ []) ≡ some o'
unfolding say printf convert
say_byte o v = (_, refl)

dump_lead_ends : (addr x : ℕ) (o : Out) → (o' : Out) × dump_lead addr x o ≡ some o'
unfolding dump_lead
dump_lead_ends addr x o = elim (Bool-cases (x == 0)) [
  | inl at_start ↦ let (o1, e) = say_addr o addr in (o1, ground (arith, at_start, e))
  | inr later ↦ elim (Bool-cases (x == 4)) [
    | inl middle ↦ let (o1, e) = say_gap o in (o1, ground (arith, later, middle, e))
    | inr other ↦ (o, ground (arith, later, other))
  ]
]

dump_byte_ends : (m : Bytes) (addr x : ℕ) (o : Out) → (o' : Out) × dump_byte m addr x o ≡ some o'
unfolding dump_byte Option.bind
dump_byte_ends m addr x o =
    let (o1, e1) = dump_lead_ends addr x o in
    let (o2, e2) = say_byte o1 (m addr) in
    ((if leb 8 (x + 1) then puts o2 [] else o2), ground (arith, e1, e2))

dump_loop_on :
    (len : ℕ) (m : Bytes) (addr x : ℕ) (o o1 : Out)
    → dump_byte m addr x o ≡ some o1
    → dump_loop (suc len) m addr x o
      ≡ dump_loop len m ((addr + 1) % u32_mod) (if leb 8 (x + 1) then 0 else x + 1) o1
unfolding dump_loop
dump_loop_on len m addr x o o1 e = ground (arith, e)

-- The counter of a line is the count of all bytes, modulo 8.
next_in_line : (i : ℕ) → (if leb 8 (i % 8 + 1) then 0 else i % 8 + 1) ≡ (i + 1) % 8
next_in_line i = ground arith

next_addr : (addr i : ℕ) → ((addr + i) % u32_mod + 1) % u32_mod ≡ (addr + (i + 1)) % u32_mod
next_addr addr i = omega arith

dump_loop-Shown :
    (n i : ℕ) (m : Bytes) (addr : ℕ) (o : Out)
    → (o' : Out) × (dump_loop n m ((addr + i) % u32_mod) (i % 8) o ≡ some o')
      × Shown m addr i n o o'
unfolding dump_loop
dump_loop-Shown zero i m addr o = (o, refl, refl)
dump_loop-Shown (suc n) i m addr o =
    let (o1, e) = dump_byte_ends m ((addr + i) % u32_mod) (i % 8) o in
    let (o2, e2, shown) = dump_loop-Shown n (i + 1) m addr o1 in
    (
      o2,
      dump_loop_on n m ((addr + i) % u32_mod) (i % 8) o o1 e
          ∙ ap (λ a. dump_loop n m a (if leb 8 (i % 8 + 1) then 0 else i % 8 + 1) o1)
              (next_addr addr i)
          ∙ ap (λ x. dump_loop n m ((addr + (i + 1)) % u32_mod) x o1) (next_in_line i)
          ∙ e2,
      (o1, e, shown),
    )

heading_ends : (addr len : ℕ) (o : Out) → (o' : Out) × dump_heading addr len o ≡ some o'
unfolding dump_heading say printf convert
heading_ends addr len o = (_, refl)

dump_ends :
    (m : Bytes) (addr len : ℕ) (o o1 o2 : Out)
    → dump_heading addr (dump_length len) o ≡ some o1
    → dump_loop (rounds (dump_length len)) m addr 0 o1 ≡ some o2
    → dump m addr len o ≡ some (puts o2 [])
unfolding dump
dump_ends m addr len o o1 o2 e1 e2 =
    bind_ends (dump_heading addr (dump_length len) o) o1
      (λ o1. Option.map (λ o2. puts o2 []) (dump_loop (rounds (dump_length len)) m addr 0 o1))
      (puts o2 []) e1 (ap (Option.map (λ o2. puts o2 [])) e2)

dump_loop_start :
    (n : ℕ) (m : Bytes) (addr : ℕ) (o o' : Out)
    → addr < u32_mod
    → dump_loop n m ((addr + 0) % u32_mod) 0 o ≡ some o'
    → dump_loop n m addr 0 o ≡ some o'
dump_loop_start n m addr o o' lt e =
    let at : addr ≡ (addr + 0) % u32_mod = omega (arith, lt) in ap (λ a. dump_loop n m a 0 o) at ∙ e

dump-Shown :
    (m : Bytes) (addr len : ℕ) (o : Out)
    → addr < u32_mod
    → (o1 o2 : Out) × (dump m addr len o ≡ some (puts o2 []))
      × (dump_heading addr (dump_length len) o ≡ some o1)
      × Shown m addr 0 (rounds (dump_length len)) o1 o2
dump-Shown m addr len o lt =
    let (o1, e1) = heading_ends addr (dump_length len) o in
    let (o2, e2, shown) = dump_loop-Shown (rounds (dump_length len)) 0 m addr o1 in
    (
      o1,
      o2,
      dump_ends m addr len o o1 o2 e1
          (dump_loop_start (rounds (dump_length len)) m addr o1 o2 lt e2),
      e1,
      shown,
    )

-- "dumpmem <addr> <len>" with two numbers, as `atoi` reads them, ends: behind a heading it shows
-- the bytes from the address on, eight to a line, as many as asked for: 16 if that is 0, and none
-- if it is negative. Addresses wrap around at 2^32.
pub cmd_dumpmem-Shown :
    (f : ℕ) (x0 x1 x2 : Ptr) (m : Bytes) (addr len : ℕ) (o : Out)
    → atoi f m x1 ≡ some addr
    → atoi f m x2 ≡ some len
    → addr < u32_mod
    → (o1 o2 : Out) × (cmd_dumpmem f m (x0 ∷ x1 ∷ x2 ∷ []) o ≡ some (puts o2 []))
      × (dump_heading addr (dump_length len) o ≡ some o1)
      × Shown m addr 0 (rounds (dump_length len)) o1 o2
unfolding cmd_dumpmem Option.bind
cmd_dumpmem-Shown f x0 x1 x2 m addr len o e1 e2 lt =
    let (o1, o2, e, h, shown) = dump-Shown m addr len o lt in
    (
      o1,
      o2,
      bind_two (atoi f m x1) (atoi f m x2) addr len (λ addr len. dump m addr len o) e1 e2 ∙ e,
      h,
      shown,
    )
