-- ===== src/Uart/Console.antt =====
-- What the console writes, down to the line.
use ertos.Base.{plus_zero, minus_zero}
use ertos.Base.{
  ℕ, zero, suc, ◌≡◌, ◌≤◌, ◌<◌, ◌∙◌, refl, sym, ap, List, [], ◌∷◌, ◌++◌, some, arith, length, Ptr,
  if◌then◌else◌, take, drop, true, false, Bool,
}
use ertos.Base.Int.{pos}
use mathlib.Core.Option
use mathlib.Core.Path.{subst}
use ertos.CString.{Bytes, bytes}
use ertos.Uart.{Fifo, Uart, fifo_free, uart_write, at_most, tx, write_loop, cons_write}
use ertos.Uart.Ring.{Holds, length-bytes, fifo_free-Holds}
use ertos.Uart.Line.{uart_write-Holds, tx-sent, take_none}

take_all : (k : ℕ) (xs : List ℕ) → length xs ≤ k → take k xs ≡ xs
take_all zero [] h = refl
take_all zero (x ∷ xs) h = elim h [ ]
take_all (suc k) [] h = refl
take_all (suc k) (x ∷ xs) h = ap (λ ys. x ∷ ys) (take_all k xs (omega (arith, h)))

held_none : {f : Fifo} (room : ℕ) → Holds f (drop room []) → Holds f []
held_none zero h = h
held_none (suc room) h = h

all_taken :
    (u : Uart) (len : ℕ) → Holds u.tx_fifo [] → len < 1024 → at_most len (fifo_free u.tx_fifo) ≡ len
all_taken u len h lt = ground (arith, fifo_free-Holds u.tx_fifo [] h)

-- The interrupt that may come first has nothing to send.
idle :
    (b : Bool) (room : ℕ) (u : Uart)
    → Holds u.tx_fifo []
    → let u' = if b then tx room u else u in Holds u'.tx_fifo [] × (u'.sent ≡ u.sent)
idle false room u h = (h, refl)
idle true room u h =
    let (e, left) = tx-sent room u [] h in (held_none room left, e ∙ sym (take_none room u.sent))

-- The loop ends when the first call takes everything.
write_loop_once :
    (u : Uart) (room : ℕ) (rooms : List ℕ) (m : Bytes) (buf : Ptr) (len : ℕ)
    → let (rc, u1) = uart_write (if u.tie then tx room u else u) m buf len in
      rc ≡ len → write_loop (room ∷ rooms) u m buf len 0 ≡ some (len, u1)
unfolding write_loop
write_loop_once u room rooms m buf len h = rw (plus_zero buf, minus_zero len) (ground (arith, h))

sends_all :
    (k : ℕ) (u : Uart) (xs : List ℕ)
    → Holds u.tx_fifo xs
    → length xs ≤ k
    → (tx k u).sent ≡ u.sent ++ xs
sends_all k u xs h le = (tx-sent k u xs h).0 ∙ ap (λ ys. u.sent ++ ys) (take_all k xs le)

uart_write-tie :
    (u : Uart) (m : Bytes) (buf : Ptr) (len : ℕ) → (uart_write u m buf len).1.tie ≡ true
unfolding uart_write
uart_write-tie u m buf len = ground arith

-- Less than 1024 bytes, written to the console when nothing waits to be sent: `cons_write` takes
-- all of them in one call of `uart_write` and leaves the transmit interrupt enabled, and that
-- interrupt, if the line has enough room, sends them in order.
pub cons_write-sent :
    (u : Uart) (room : ℕ) (rooms : List ℕ) (m : Bytes) (buf : Ptr) (len : ℕ)
    → Holds u.tx_fifo []
    → 0 < len
    → len < 1024
    → (u' : Uart) × (cons_write (some u) (room ∷ rooms) m buf len ≡ some (pos len, some u'))
      × (u'.tie ≡ true)
      × ((k : ℕ) → len ≤ k → (tx k u').sent ≡ u.sent ++ bytes m buf len)
unfolding cons_write
cons_write-sent u room rooms m buf len h more lt =
    let u0 = if u.tie then tx room u else u in
    let (h0, same) = idle u.tie room u h in
    let n = all_taken u0 len h0 lt in
    let (rc, held, kept) = uart_write-Holds u0 m buf len [] more h0 (omega (arith, n, lt)) in
    let u1 = (uart_write u0 m buf len).1 in
    let all = subst (λ j. Holds u1.tx_fifo (bytes m buf j)) n held in
    (
      u1,
      ap (Option.map (λ (n, u1). (pos n, some u1)))
          (write_loop_once u room rooms m buf len (rc ∙ n)),
      uart_write-tie u0 m buf len,
      λ k le.
          sends_all k u1 (bytes m buf len) all (omega (arith, length-bytes m buf len, le))
          ∙ ap (λ xs. xs ++ bytes m buf len) (kept ∙ same),
    )
