-- ===== src/Uart/Ring.antt =====
-- A FIFO of the serial line as the sequence of bytes in it.
use ertos.Base.{
  ℕ, zero, suc, ◌+◌, ◌-◌, ◌%◌, ◌≡◌, ◌<◌, ◌∙◌, refl, sym, ap, List, [], ◌∷◌, ◌++◌, arith, length,
  length-append, get_or, get_or-append, Ptr, write, write_self, write_ne, ltb, ◌==◌, if◌then◌else◌,
  Bool-cases, inl, inr,
}
use mathlib.Core.List.{append_assoc, append-nil}
use mathlib.Core.Path.{subst}
use ertos.CString.{Bytes, bytes}
use ertos.Uart.{
  Fifo, next, store, advance, rounds, fifo_free, fifo_available, add_loop, remove_loop, fifo_add,
  fifo_remove,
}

-- The FIFO holds the bytes `xs`, in order of arrival.
pub record Holds (f : Fifo) (xs : List ℕ) : Type 0 where
  pub head_in : f.head < 1024
  pub tail_is : f.tail ≡ (f.head + length xs) % 1024
  pub room : length xs < 1024
  pub at : (i : ℕ) → i < length xs → f.data_ ((f.head + i) % 1024) ≡ get_or xs i 0

next_lem : (i : ℕ) → i < 1024 → next i ≡ (i + 1) % 1024
next_lem i h = ground arith

-- The bytes in it are what `uart_fifo_available` counts.
pub fifo_available-Holds : (f : Fifo) (xs : List ℕ) → Holds f xs → fifo_available f ≡ length xs
unfolding fifo_available
fifo_available-Holds f xs h = ground (arith, h.head_in, h.tail_is, h.room)

-- `uart_fifo_free` answers the number of bytes that are in the FIFO, not of those that are free,
-- but 1024 for an empty one.
pub fifo_free-Holds :
    (f : Fifo) (xs : List ℕ)
    → Holds f xs
    → fifo_free f ≡ (if length xs == 0 then 1024 else length xs)
unfolding fifo_free
fifo_free-Holds f xs h = ground (arith, h.head_in, h.tail_is, h.room)

last_index : (i k : ℕ) → i < k + 1 → i - k ≡ 0
last_index i k h = omega (arith, h)

stored :
    (f : Fifo) (xs : List ℕ) (c i : ℕ)
    → length xs < 1023
    → Holds f xs
    → i < length xs + 1
    → write f.data_ f.tail c ((f.head + i) % 1024) ≡ get_or (xs ++ (c ∷ [])) i 0
stored f xs c i lt h le = elim (Bool-cases (ltb i (length xs))) [
  | inl old ↦
      write_ne f.data_ f.tail ((f.head + i) % 1024) c
        (ground (arith, h.head_in, h.tail_is, old, lt))
      ∙ h.at i (ground (arith, old))
      ∙ sym (rw (get_or-append xs (c ∷ []) i, old) refl)
  | inr new ↦
      ap (write f.data_ f.tail c) (ground (arith, h.head_in, h.tail_is, new, le))
      ∙ write_self f.data_ f.tail c
      ∙ sym (
          rw (get_or-append xs (c ∷ []) i, new)
            (ap (λ (j : ℕ). get_or (c ∷ []) j 0) (last_index i (length xs) le)))
]

pub store-Holds :
    (f : Fifo) (xs : List ℕ) (c : ℕ)
    → length xs < 1023
    → Holds f xs
    → Holds (store f c) (xs ++ (c ∷ []))
unfolding store
store-Holds f xs c lt h = record {
  head_in = h.head_in;
  tail_is = ground (arith, h.head_in, h.tail_is, length-append xs (c ∷ []), lt);
  room = omega (arith, length-append xs (c ∷ []), lt);
  at = λ i le. stored f xs c i lt h (omega (arith, le, length-append xs (c ∷ [])));
}

pub advance-Holds : (f : Fifo) (x : ℕ) (xs : List ℕ) → Holds f (x ∷ xs) → Holds (advance f) xs
unfolding advance
advance-Holds f x xs h = record {
  head_in = ground (arith, h.head_in);
  tail_is = ground (arith, h.head_in, h.tail_is, h.room);
  room = omega (arith, h.room);
  at = λ i le. ap f.data_ (ground (arith, h.head_in)) ∙ h.at (suc i) (omega (arith, le));
}

pub front : (f : Fifo) (x : ℕ) (xs : List ℕ) → Holds f (x ∷ xs) → f.data_ f.head ≡ x
front f x xs h = ap f.data_ (omega (arith, h.head_in)) ∙ h.at 0 (omega arith)

pub some_rounds : (len : ℕ) → 0 < len → rounds len ≡ len
some_rounds len h = ground arith

pub length-bytes : (m : Bytes) (p : Ptr) (n : ℕ) → length (bytes m p n) ≡ n
length-bytes m p zero = refl
length-bytes m p (suc n) = ap suc (length-bytes m (p + 1) n)

add_loop-Holds :
    (n : ℕ) (f : Fifo) (m : Bytes) (p : Ptr) (xs : List ℕ)
    → length xs + n < 1024
    → Holds f xs
    → Holds (add_loop n f m p) (xs ++ bytes m p n)
unfolding add_loop
add_loop-Holds zero f m p xs lt h = rw (append-nil xs) h
add_loop-Holds (suc n) f m p xs lt h =
    subst (Holds (add_loop n (store f (m p)) m (p + 1)))
      (append_assoc xs (m p ∷ []) (bytes m (p + 1) n))
      (add_loop-Holds n (store f (m p)) m (p + 1) (xs ++ (m p ∷ []))
        (omega (arith, length-append xs (m p ∷ []), lt))
        (store-Holds f xs (m p) (omega (arith, lt)) h))

-- A block that fits is put behind what is in the FIFO.
pub fifo_add-Holds :
    (f : Fifo) (m : Bytes) (buf : Ptr) (len : ℕ) (xs : List ℕ)
    → 0 < len
    → length xs + len < 1024
    → Holds f xs
    → Holds (fifo_add f m buf len) (xs ++ bytes m buf len)
unfolding fifo_add
fifo_add-Holds f m buf len xs pos lt h =
    rw (some_rounds len pos) (add_loop-Holds len f m buf xs lt h)

-- What the loop of `uart_fifo_remove` has done.
pub record Removed (m : Bytes) (p : Ptr) (xs ys : List ℕ) (r : Bytes × Fifo) : Type 0 where
  pub left : Holds r.1 ys
  pub got : (i : ℕ) → i < length xs → r.0 (p + i) ≡ get_or xs i 0
  pub below : (a : Ptr) → a < p → r.0 a ≡ m a

got_step :
    (xs : List ℕ) (x : ℕ) (m : Bytes) (p : Ptr)
    → m p ≡ x
    → ((i : ℕ) → i < length xs → m (p + 1 + i) ≡ get_or xs i 0)
    → (i : ℕ) → i < suc (length xs)
    → m (p + i) ≡ get_or (x ∷ xs) i 0
got_step xs x m p first rest zero lt = ap m (omega arith) ∙ first
got_step xs x m p first rest (suc i) lt = ap m (omega arith) ∙ rest i (omega (arith, lt))

remove_loop-Removed :
    (xs ys : List ℕ) (f : Fifo) (m : Bytes) (p : Ptr)
    → Holds f (xs ++ ys)
    → Removed m p xs ys (remove_loop (length xs) f m p)
unfolding remove_loop
remove_loop-Removed [] ys f m p h = record {
  left = h;
  got = λ i lt. ground arith;
  below = λ a lt. refl;
}
remove_loop-Removed (x ∷ xs) ys f m p h =
    let m' = (remove_loop (length xs) (advance f) (write m p (f.data_ f.head)) (p + 1)).0 in
    let r =
      remove_loop-Removed xs ys (advance f) (write m p (f.data_ f.head)) (p + 1)
        (advance-Holds f x (xs ++ ys) h) in
    let first =
      r.below p (omega arith) ∙ write_self m p (f.data_ f.head) ∙ front f x (xs ++ ys) h in
    record {
      left = r.left;
      got = got_step xs x m' p first r.got;
      below = λ a lt.
          r.below a (omega (arith, lt)) ∙ write_ne m p a (f.data_ f.head) (omega (arith, lt));
    }

-- `uart_fifo_remove` takes the oldest bytes, in order.
pub fifo_remove-Removed :
    (xs ys : List ℕ) (f : Fifo) (m : Bytes) (buf : Ptr)
    → 0 < length xs
    → Holds f (xs ++ ys)
    → Removed m buf xs ys (fifo_remove f m buf (length xs))
unfolding fifo_remove
fifo_remove-Removed xs ys f m buf pos h =
    rw (some_rounds (length xs) pos) (remove_loop-Removed xs ys f m buf h)
