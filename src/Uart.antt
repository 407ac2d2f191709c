-- ===== src/Uart.antt =====
-- The serial line: the FIFOs of include/sys/uart.h, the calls of dev/uart.c, the driver of
-- arch/uart.c, and the console of kernel/cons.c on top. Of the control register the three bits that
-- the code changes are kept; the line control registers are set once and not modelled. What goes
-- out on the line is kept as a trace.
pub mod Ring
pub mod Line
pub mod Console
pub mod Receive
mod Tests
use ertos.Base.{
  ℕ, zero, suc, ◌+◌, ◌-◌, Ptr, Bool, true, false, List, [], ◌∷◌, ◌++◌, Option, none, some, Store,
  write, ltb, leb, ◌==◌, if◌then◌else◌, u32_mod, replicate,
}
use mathlib.Core.Option
use ertos.Base.Int.{ℤ, pos, ok, err}
use ertos.Bfifo
use ertos.CString.{Bytes}
use ertos.Syscall.{Sys, sys_wake}

abbrev pub uart_fifo_size : ℕ
uart_fifo_size = 1024

-- `struct uart_fifo`. The indices are never negative.
pub record Fifo : Type 0 where
  pub data_ : Store ℕ
  pub head : ℕ
  pub tail : ℕ

-- `enum uart_state`
pub data State : Type 0 where
  opened : State
  closed : State

-- `struct uart`; `wait` is the address of its completion. The bits `tie`, `rie` and `uarte` of the
-- control register, and the bytes written to the data register so far, stand with it.
pub record Uart : Type 0 where
  pub baud : ℕ
  pub rx_fifo : Fifo
  pub tx_fifo : Fifo
  pub state : State
  pub wait : Ptr
  pub tie : Bool
  pub rie : Bool
  pub uarte : Bool
  pub sent : List ℕ

-- `if (++i >= sizeof(f->data)) i = 0`
abbrev pub next : ℕ → ℕ
next i = if leb uart_fifo_size (i + 1) then 0 else i + 1

-- `uart_fifo_free`
unfoldable pub fifo_free : Fifo → ℕ
fifo_free f = if ltb f.head f.tail then f.tail - f.head else uart_fifo_size - (f.head - f.tail)

-- `uart_fifo_available`
unfoldable pub fifo_available : Fifo → ℕ
fifo_available f = if leb f.head f.tail then f.tail - f.head else uart_fifo_size - (f.head - f.tail)

-- `f->data[f->tail] = c`, and the tail goes on.
unfoldable pub store : Fifo → ℕ → Fifo
store f c = record f { data_ = write f.data_ f.tail c; tail = next f.tail }

-- The head goes on.
unfoldable pub advance : Fifo → Fifo
advance f = record f { head = next f.head }

-- The rounds of `do ... while (--len > 0)` on a `size_t`.
abbrev pub rounds : ℕ → ℕ
rounds len = if len == 0 then u32_mod else len

-- The loop of `uart_fifo_add`.
unfoldable pub add_loop : ℕ → Fifo → Bytes → Ptr → Fifo
unfolding store
add_loop zero f m p = f
add_loop (suc n) f m p = add_loop n (store f (m p)) m (p + 1)

-- `uart_fifo_add`
unfoldable pub fifo_add : Fifo → Bytes → Ptr → ℕ → Fifo
unfolding add_loop
fifo_add f m buf len = add_loop (rounds len) f m buf

-- The loop of `uart_fifo_remove`.
unfoldable pub remove_loop : ℕ → Fifo → Bytes → Ptr → Bytes × Fifo
unfolding advance
remove_loop zero f m p = (m, f)
remove_loop (suc n) f m p = remove_loop n (advance f) (write m p (f.data_ f.head)) (p + 1)

-- `uart_fifo_remove`
unfoldable pub fifo_remove : Fifo → Bytes → Ptr → ℕ → Bytes × Fifo
unfolding remove_loop
fifo_remove f m buf len = remove_loop (rounds len) f m buf

abbrev pub disable_tx : Uart → Uart
disable_tx u = record u { tie = false }

abbrev pub enable_tx : Uart → Uart
enable_tx u = record u { tie = true }

abbrev pub disable_rx : Uart → Uart
disable_rx u = record u { rie = false }

abbrev pub enable_rx : Uart → Uart
enable_rx u = record u { rie = true }

-- `if (len > available) len = available`
abbrev pub at_most : ℕ → ℕ → ℕ
at_most len available = if ltb available len then available else len

-- `uart_write`
unfoldable pub uart_write : Uart → Bytes → (buf : Ptr) → (len : ℕ) → ℕ × Uart
uart_write u m buf len =
    let u1 = disable_tx u in
    let available = fifo_free u1.tx_fifo in
    let n = at_most len available in
    if ltb 0 available
    then (n, enable_tx (record u1 { tx_fifo = fifo_add u1.tx_fifo m buf n }))
    else (0, enable_tx u1)

-- `uart_read`, and the memory behind `buf`.
unfoldable pub uart_read : Uart → Bytes → (buf : Ptr) → (len : ℕ) → ℕ × Bytes × Uart
uart_read u m buf len =
    let u1 = disable_rx u in
    let available = fifo_available u1.rx_fifo in
    let n = at_most len available in
    let (m1, f1) = fifo_remove u1.rx_fifo m buf n in
    if ltb 0 available
    then (n, m1, enable_rx (record u1 { rx_fifo = f1 }))
    else (0, m, enable_rx u1)

-- The cleared FIFO.
abbrev pub blank : Fifo
blank = record { data_ = λ i. 0; head = 0; tail = 0 }

-- `ep93xx_uart_open`; `block` is what `malloc` gives `bfifo_alloc`. The registration of the
-- interrupt handler, which Irq models, and the line control registers are left out.
unfoldable pub uart_open : Sys → Uart → (block : Ptr) → ℤ × Sys × Uart
uart_open s u block = elim (Bfifo.alloc block 10) [
  | none ↦ (err, s, u)
  | some queue ↦ (
    ok,
    record s { waits = write s.waits u.wait queue },
    record u {
      rx_fifo = blank;
      tx_fifo = blank;
      baud = 115200;
      rie = true;
      tie = true;
      uarte = true;
      state = opened;
    },
  )
]

-- `ep93xx_uart_close`
unfoldable pub uart_close : Uart → Uart
uart_close u = record u { uarte = false; rx_fifo = blank; tx_fifo = blank; state = closed }

-- `ep93xx_uart_set_baud`
unfoldable pub set_baud : Uart → ℕ → ℤ × Uart
set_baud u baud = (ok, record u { baud = baud })

-- The loop of `ep93xx_uart_rx` on the bytes that the data register will answer; it leaves those
-- that it does not take.
unfoldable pub rx_loop : List ℕ → (free : ℕ) → Fifo → Fifo × List ℕ
unfolding store
rx_loop [] free f = (f, [])
rx_loop (c ∷ line) free f =
    let rest = rx_loop line (free - 1) (store f c) in if ltb 0 free then rest else (f, c ∷ line)

-- `ep93xx_uart_rx`
unfoldable pub rx : ℕ → Sys → Uart → List ℕ → Option (Sys × Uart × List ℕ)
rx fuel s u line =
    let (f, line1) = rx_loop line (fifo_free u.rx_fifo) u.rx_fifo in
    Option.map (λ (rc, s1). (s1, record u { rx_fifo = f }, line1)) (sys_wake fuel s u.wait)

-- The loop of `ep93xx_uart_tx`, where the line takes `room` bytes before it is full.
unfoldable pub tx_loop : (room : ℕ) → Uart → Uart
unfolding advance
tx_loop zero u = u
tx_loop (suc room) u =
    let f = u.tx_fifo in
    let rest =
      tx_loop room (record u { sent = u.sent ++ (f.data_ f.head ∷ []); tx_fifo = advance f }) in
    if f.head == f.tail then u else rest

-- `ep93xx_uart_tx`
unfoldable pub tx : (room : ℕ) → Uart → Uart
unfolding tx_loop
tx room u = if u.tx_fifo.head == u.tx_fifo.tail then disable_tx u else tx_loop room u

-- `uart1_intr`; the two bits say which interrupts are pending.
pub intr : ℕ → Sys → Uart → (ris tis : Bool) → List ℕ → (room : ℕ) → Option (Sys × Uart × List ℕ)
unfolding rx tx
intr fuel s u ris tis line room =
    Option.map (λ (s1, u1, line1). (s1, if tis then tx room u1 else u1, line1))
      (if ris then rx fuel s u line else some (s, u, line))

-- The loop of `cons_write`, from `buf + n` on. A transmit interrupt, if it is enabled, comes before
-- each call of `uart_write`, with as much room as the list says; `none` goes on behind the end of
-- the list.
unfoldable pub write_loop : List ℕ → Uart → Bytes → (buf : Ptr) → (len n : ℕ) → Option (ℕ × Uart)
unfolding uart_write tx
write_loop [] u m buf len n = none
write_loop (room ∷ rooms) u m buf len n =
    let (rc, u1) = uart_write (if u.tie then tx room u else u) m (buf + n) (len - n) in
    let rest = write_loop rooms u1 m buf len (n + rc) in
    if ltb (n + rc) len then rest else some (n + rc, u1)

-- `cons_write`; `none` is no console.
pub cons_write : Option Uart → List ℕ → Bytes → (buf : Ptr) → (len : ℕ) → Option (ℤ × Option Uart)
unfolding write_loop
cons_write none rooms m buf len = some (err, none)
cons_write (some u) rooms m buf len =
    Option.map (λ (n, u1). (pos n, some u1)) (write_loop rooms u m buf len 0)

-- `cons_read`
pub cons_read : Option Uart → Bytes → (buf : Ptr) → (len : ℕ) → ℤ × Bytes × Option Uart
unfolding uart_read
cons_read none m buf len = (err, m, none)
cons_read (some u) m buf len = let (n, m1, u1) = uart_read u m buf len in (pos n, m1, some u1)
