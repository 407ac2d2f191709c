-- ===== src/Uart/Receive.antt =====
-- From the line to the reader.
use ertos.Base.{one_less}
use ertos.Base.{
  ℕ, zero, suc, ◌+◌, ◌≡◌, ◌≤◌, ◌<◌, refl, sym, List, [], ◌∷◌, ◌++◌, some, arith, length,
  length-append, get_or, count, Ptr, null, ltb, true,
}
use mathlib.Core.Path.{subst}
use mathlib.Core.List.{append_assoc, append-nil}
use ertos.CString.{Bytes}
use ertos.Bfifo.Valid.{IsValid, used}
use ertos.Bfifo.Refine.{contents}
use ertos.Syscall.{Sys}
use ertos.Syscall.Wake.{sys_wake_lem, woken}
use ertos.Uart.{
  Fifo, Uart, store, fifo_free, fifo_available, fifo_remove, at_most, rx_loop, rx, uart_read,
}
use ertos.Uart.Ring.{
  Holds, store-Holds, fifo_free-Holds, fifo_available-Holds, Removed, fifo_remove-Removed,
}

rx_loop_on :
    (c : ℕ) (line : List ℕ) (free : ℕ) (f : Fifo)
    → rx_loop (c ∷ line) (suc free) f ≡ rx_loop line free (store f c)
unfolding rx_loop
rx_loop_on c line free f = rw (one_less free) (ground arith)

-- A line of bytes for which there is room is taken in full.
rx_loop-Holds :
    (line : List ℕ) (free : ℕ) (f : Fifo) (xs : List ℕ)
    → length line ≤ free
    → length xs + length line < 1024
    → Holds f xs
    → ((rx_loop line free f).1 ≡ []) × Holds (rx_loop line free f).0 (xs ++ line)
unfolding rx_loop
rx_loop-Holds [] free f xs le lt h = (refl, subst (Holds f) (sym (append-nil xs)) h)
rx_loop-Holds (c ∷ line) zero f xs le lt h = elim le [ ]
rx_loop-Holds (c ∷ line) (suc free) f xs le lt h =
    let (none_left, held) =
      rx_loop-Holds line free (store f c) (xs ++ (c ∷ [])) (omega (arith, le))
        (omega (arith, length-append xs (c ∷ []), lt)) (store-Holds f xs c (omega (arith, lt)) h) in
    rw (rx_loop_on c line free f) (
      none_left,
      subst (Holds (rx_loop line free (store f c)).0) (append_assoc xs (c ∷ []) line) held,
    )

at_most_lem : (len k : ℕ) → k ≤ len → at_most len k ≡ k
at_most_lem len k le = ground arith

positive : (k : ℕ) → 0 < k → ltb 0 k ≡ true
positive k h = ground arith

uart_read_is :
    (u : Uart) (m : Bytes) (buf : Ptr) (len k : ℕ)
    → 0 < k
    → k ≤ len
    → fifo_available u.rx_fifo ≡ k
    → let (m1, f1) = fifo_remove u.rx_fifo m buf k in
      uart_read u m buf len ≡ (k, m1, record u { rie = true; rx_fifo = f1 })
unfolding uart_read
uart_read_is u m buf len k more le e = rw (e, at_most_lem len k le, positive k more) refl

room_for : (f : Fifo) → Holds f [] → fifo_free f ≡ 1024
room_for f h = fifo_free-Holds f [] h

-- `uart_read` of at least as many bytes as are there.
uart_read_all :
    (u : Uart) (m : Bytes) (buf : Ptr) (len : ℕ) (xs : List ℕ)
    → Holds u.rx_fifo xs
    → 0 < length xs
    → length xs ≤ len
    → let (n, m1, u1) = uart_read u m buf len in
      (n ≡ length xs) × Removed m buf xs [] (m1, u1.rx_fifo)
uart_read_all u m buf len xs h more le =
    rw (uart_read_is u m buf len (length xs) more le (fifo_available-Holds u.rx_fifo xs h)) (
      refl,
      fifo_remove-Removed xs [] u.rx_fifo m buf more
          (subst (Holds u.rx_fifo) (sym (append-nil xs)) h),
    )

-- Less than 1024 bytes that arrive while none waits to be read: the receive handler takes all of
-- them and makes every process that waits for the serial line runnable, and `uart_read` of that
-- many bytes or more answers their number and stores them in the order of arrival, and nothing
-- below the buffer.
pub receive_read :
    (fuel : ℕ) (s : Sys) (u : Uart) (line : List ℕ) (m : Bytes) (buf : Ptr) (len : ℕ)
    → Holds u.rx_fifo []
    → 0 < length line
    → length line < 1024
    → length line ≤ len
    → IsValid (s.waits u.wait)
    → count null (contents (s.waits u.wait)) ≡ 0
    → used (s.waits u.wait) < fuel
    → (s' : Sys) × (u' : Uart) × (rx fuel s u line ≡ some (s', u', []))
      × ((a : Ptr) → s'.kernel.proc a ≡ woken (contents (s.waits u.wait)) s.kernel a)
      × let (n, m', u'') = uart_read u' m buf len in
        (n ≡ length line)
        × ((i : ℕ) → i < length line → m' (buf + i) ≡ get_or line i 0)
        × ((a : Ptr) → a < buf → m' a ≡ m a)
        × Holds u''.rx_fifo []
unfolding rx
receive_read fuel s u line m buf len h more lt le v n enough =
    let f = u.rx_fifo in
    let (left, held) =
      rx_loop-Holds line (fifo_free f) f [] (omega (arith, room_for f h, lt)) (omega (arith, lt))
        h in
    let (s', woke, empty, others, woken_are) = sys_wake_lem fuel s u.wait v n enough in
    let u' = record u { rx_fifo = (rx_loop line (fifo_free f) f).0 } in
    let (count_is, removed) = uart_read_all u' m buf len line held more le in
    (s', u', rw (woke, left) refl, woken_are, (count_is, removed.got, removed.below, removed.left))
