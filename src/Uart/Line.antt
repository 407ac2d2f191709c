-- ===== src/Uart/Line.antt =====
-- What the calls and the interrupt handlers of the serial line do to the sequences in the FIFOs.
use ertos.Base.{
  ℕ, zero, suc, ◌+◌, ◌%◌, ◌≡◌, ◌<◌, ◌∙◌, refl, sym, ap, List, [], ◌∷◌, ◌++◌, arith, length, Ptr,
  ltb, ◌==◌, take, drop, true, false,
}
use mathlib.Core.List.{append_assoc, append-nil}
use ertos.CString.{Bytes, bytes}
use ertos.Uart.{
  Fifo, Uart, store, advance, fifo_free, fifo_available, add_loop, fifo_add, uart_write, at_most,
  tx_loop, tx,
}
use ertos.Uart.Ring.{Holds, fifo_add-Holds, advance-Holds, front, some_rounds}

-- Both indices are in the array.
pub record InRange (f : Fifo) : Type 0 where
  pub head_in : f.head < 1024
  pub tail_in : f.tail < 1024

store-InRange : (f : Fifo) (c : ℕ) → InRange f → InRange (store f c)
unfolding store
store-InRange f c h = record { head_in = h.head_in; tail_in = ground (arith, h.tail_in) }

store-available :
    (f : Fifo) (c : ℕ) → InRange f → fifo_available (store f c) ≡ (fifo_available f + 1) % 1024
unfolding store fifo_available
store-available f c h = ground (arith, h.head_in, h.tail_in)

available_lt : (f : Fifo) → InRange f → fifo_available f % 1024 ≡ fifo_available f
unfolding fifo_available
available_lt f h = ground (arith, h.head_in, h.tail_in)

-- There always seems to be room.
some_free : (f : Fifo) → InRange f → ltb 0 (fifo_free f) ≡ true
unfolding fifo_free
some_free f h = ground (arith, h.head_in, h.tail_in)

uart_write_is :
    (u : Uart) (m : Bytes) (buf : Ptr) (len : ℕ)
    → InRange u.tx_fifo
    → let n = at_most len (fifo_free u.tx_fifo) in
      uart_write u m buf len ≡ (n, record u { tie = true; tx_fifo = fifo_add u.tx_fifo m buf n })
unfolding uart_write
uart_write_is u m buf len h = rw (some_free u.tx_fifo h) refl

add_loop-available :
    (n : ℕ) (f : Fifo) (m : Bytes) (p : Ptr)
    → InRange f
    → fifo_available (add_loop n f m p) ≡ (fifo_available f + n) % 1024
unfolding add_loop
add_loop-available zero f m p h = sym (omega (arith, available_lt f h))
add_loop-available (suc n) f m p h =
    add_loop-available n (store f (m p)) m (p + 1) (store-InRange f (m p) h)
    ∙ omega (arith, store-available f (m p) h)

fifo_add-available :
    (f : Fifo) (m : Bytes) (buf : Ptr) (len : ℕ)
    → InRange f
    → 0 < len
    → fifo_available (fifo_add f m buf len) ≡ (fifo_available f + len) % 1024
unfolding fifo_add
fifo_add-available f m buf len h more = rw (some_rounds len more) (add_loop-available len f m buf h)

some_taken : (f : Fifo) (len : ℕ) → InRange f → 0 < len → 0 < at_most len (fifo_free f)
some_taken f len h more = ground (arith, some_free f h)

Holds-InRange : {f : Fifo} {xs : List ℕ} → Holds f xs → InRange f
Holds-InRange h = record { head_in = h.head_in; tail_in = omega (arith, h.tail_is) }

-- The count of the bytes in the FIFO goes up by what `uart_write` says it took, but modulo 1024:
-- where that wraps, the bytes are lost. So are all of the 1024 bytes that an empty FIFO is said to
-- have room for.
pub uart_write-available :
    (u : Uart) (m : Bytes) (buf : Ptr) (len : ℕ)
    → InRange u.tx_fifo
    → 0 < len
    → let (n, u') = uart_write u m buf len in
      (n ≡ at_most len (fifo_free u.tx_fifo))
      × (fifo_available u'.tx_fifo ≡ (fifo_available u.tx_fifo + n) % 1024)
uart_write-available u m buf len h p =
    let n = at_most len (fifo_free u.tx_fifo) in
    rw (uart_write_is u m buf len h)
      (refl, fifo_add-available u.tx_fifo m buf n h (some_taken u.tx_fifo len h p))

-- What fits is put behind what is in the FIFO.
pub uart_write-Holds :
    (u : Uart) (m : Bytes) (buf : Ptr) (len : ℕ) (xs : List ℕ)
    → 0 < len
    → Holds u.tx_fifo xs
    → let n = at_most len (fifo_free u.tx_fifo) in
      length xs + n < 1024
      → let (rc, u') = uart_write u m buf len in
        (rc ≡ n) × Holds u'.tx_fifo (xs ++ bytes m buf n) × (u'.sent ≡ u.sent)
uart_write-Holds u m buf len xs p h lt =
    let n = at_most len (fifo_free u.tx_fifo) in
    let r = Holds-InRange h in
    rw (uart_write_is u m buf len r)
      (refl, fifo_add-Holds u.tx_fifo m buf n xs (some_taken u.tx_fifo len r p) lt h, refl)

-- The indices meet exactly where the FIFO is empty.
level_empty : (f : Fifo) → Holds f [] → (f.head == f.tail) ≡ true
level_empty f h = ground (arith, h.head_in, h.tail_is)

level_more : (f : Fifo) (x : ℕ) (xs : List ℕ) → Holds f (x ∷ xs) → (f.head == f.tail) ≡ false
level_more f x xs h = ground (arith, h.head_in, h.tail_is, h.room)

pub take_none : (room : ℕ) (sent : List ℕ) → sent ≡ sent ++ take room []
take_none zero sent = sym (append-nil sent)
take_none (suc room) sent = sym (append-nil sent)

drop_none : (room : ℕ) (f : Fifo) → Holds f [] → Holds f (drop room [])
drop_none zero f h = h
drop_none (suc room) f h = h

tx_loop-sent :
    (room : ℕ) (u : Uart) (xs : List ℕ)
    → Holds u.tx_fifo xs
    → ((tx_loop room u).sent ≡ u.sent ++ take room xs)
      × Holds (tx_loop room u).tx_fifo (drop room xs)
unfolding tx_loop
tx_loop-sent zero u xs h = (sym (append-nil u.sent), h)
tx_loop-sent (suc room) u [] h = rw (level_empty u.tx_fifo h) (sym (append-nil u.sent), h)
tx_loop-sent (suc room) u (x ∷ xs) h =
    let f = u.tx_fifo in
    let (e, left) =
      tx_loop-sent room (record u { sent = u.sent ++ (f.data_ f.head ∷ []); tx_fifo = advance f })
        xs (advance-Holds f x xs h) in
    rw (level_more f x xs h) (
      e
          ∙ append_assoc u.sent (f.data_ f.head ∷ []) (take room xs)
          ∙ ap (λ c. u.sent ++ (c ∷ take room xs)) (front f x xs h),
      left,
    )

-- The transmit interrupt sends the oldest bytes in order, as many as the line takes, and leaves the
-- others in the FIFO.
pub tx-sent :
    (room : ℕ) (u : Uart) (xs : List ℕ)
    → Holds u.tx_fifo xs
    → ((tx room u).sent ≡ u.sent ++ take room xs) × Holds (tx room u).tx_fifo (drop room xs)
unfolding tx
tx-sent room u [] h =
    rw (level_empty u.tx_fifo h) (take_none room u.sent, drop_none room u.tx_fifo h)
tx-sent room u (x ∷ xs) h = rw (level_more u.tx_fifo x xs h) (tx_loop-sent room u (x ∷ xs) h)
