-- ===== src/Stdio/Buffer.antt =====
-- What `putchar` hands to `cons_write` with the buffer on.
use mathlib.Core.Path.{subst}
use ertos.Base.{
  All, ◌+◌, ℕ, ◌≡◌, ◌≤◌, ◌∙◌, refl, sym, ap, Bool, true, false, List, [], ◌∷◌, ◌++◌, arith, length,
  length-append, leb, ◌==◌, if◌then◌else◌,
}
use mathlib.Core.List.{append_assoc, append-nil}
use ertos.Stdio.{Out, stdout_size, flush, queue_char, putchar, put_all}

-- The bytes of all calls, in order.
abbrev pub handed : List (List ℕ) → List ℕ
handed [] = []
handed (call ∷ calls) = call ++ handed calls

handed_snoc :
    (calls : List (List ℕ)) (call : List ℕ) → handed (calls ++ (call ∷ [])) ≡ handed calls ++ call
handed_snoc [] call = append-nil call
handed_snoc (c ∷ calls) call =
    ap (λ xs. c ++ xs) (handed_snoc calls call) ∙ sym (append_assoc c (handed calls) call)

-- Everything printed so far, in order: what `cons_write` was given and what waits in the buffer.
abbrev pub printed : Out → List ℕ
printed o = handed o.calls ++ o.buf

-- The buffer is within its bounds, and so was every call.
pub record Fits (o : Out) : Type 0 where
  pub buf : length o.buf ≤ stdout_size
  pub calls : All (λ call. length call ≤ stdout_size) o.calls

flush-printed : (o : Out) → printed (flush o) ≡ printed o
unfolding flush
flush-printed o = append-nil (handed (o.calls ++ (o.buf ∷ []))) ∙ handed_snoc o.calls o.buf

maybe_flush-printed : (b : Bool) (o : Out) → printed (if b then flush o else o) ≡ printed o
maybe_flush-printed true o = flush-printed o
maybe_flush-printed false o = refl

queue_char-printed : (o : Out) (c : ℕ) → printed (queue_char o c) ≡ printed o ++ (c ∷ [])
unfolding queue_char
queue_char-printed o c =
    let o1 = if leb stdout_size (length o.buf) then flush o else o in
    let o2 = record o1 { buf = o1.buf ++ (c ∷ []) } in
    maybe_flush-printed (c == 10) o2
    ∙ sym (append_assoc (handed o1.calls) o1.buf (c ∷ []))
    ∙ ap (λ xs. xs ++ (c ∷ [])) (maybe_flush-printed (leb stdout_size (length o.buf)) o)

putchar_on : (o : Out) (c : ℕ) → o.buf_enable ≡ true → putchar o c ≡ queue_char o c
unfolding putchar
putchar_on o c h = ground arith

putchar-printed :
    (o : Out) (c : ℕ) → o.buf_enable ≡ true → printed (putchar o c) ≡ printed o ++ (c ∷ [])
putchar-printed o c h = ap printed (putchar_on o c h) ∙ queue_char-printed o c

calls_snoc :
    (xs : List (List ℕ)) (x : List ℕ)
    → All (λ call. length call ≤ stdout_size) xs
    → length x ≤ stdout_size
    → All (λ call. length call ≤ stdout_size) (xs ++ (x ∷ []))
calls_snoc [] x h p = (p, tt)
calls_snoc (y ∷ xs) x h p = (h.0, calls_snoc xs x h.1 p)

flush-Fits : (o : Out) → Fits o → Fits (flush o)
unfolding flush
flush-Fits o h = record { buf = omega arith; calls = calls_snoc o.calls o.buf h.calls h.buf }

maybe_flush-Fits : (b : Bool) (o : Out) → Fits o → Fits (if b then flush o else o)
maybe_flush-Fits true o h = flush-Fits o h
maybe_flush-Fits false o h = h

room_made :
    (o : Out)
    → length o.buf ≤ stdout_size
    → length (if leb stdout_size (length o.buf) then flush o else o).buf + 1 ≤ stdout_size
unfolding flush
room_made o h = ground (arith, h)

putchar-Fits : (o : Out) (c : ℕ) → o.buf_enable ≡ true → Fits o → Fits (putchar o c)
unfolding queue_char
putchar-Fits o c on h =
    let o1 = if leb stdout_size (length o.buf) then flush o else o in
    let o2 = record o1 { buf = o1.buf ++ (c ∷ []) } in
    let h1 = maybe_flush-Fits (leb stdout_size (length o.buf)) o h in
    let h2 : Fits o2 = record {
      buf = omega (arith, room_made o h.buf, length-append o1.buf (c ∷ []));
      calls = h1.calls;
    } in
    subst Fits (sym (putchar_on o c on)) (maybe_flush-Fits (c == 10) o2 h2)

putchar-enable : (o : Out) (c : ℕ) → (putchar o c).buf_enable ≡ o.buf_enable
unfolding putchar queue_char flush
putchar-enable o c = ground arith

-- Text printed with the buffer on: all of it is handed to `cons_write` or waits in the buffer
-- behind what was there, in order and nothing twice; the buffer stays within its 1024 bytes, and so
-- does every call. What `cons_write` makes of a call is not part of it.
pub put_all-printed :
    (s : List ℕ) (o : Out)
    → o.buf_enable ≡ true
    → Fits o
    → (printed (put_all o s) ≡ printed o ++ s) × Fits (put_all o s)
unfolding put_all
put_all-printed [] o h f = (sym (append-nil (printed o)), f)
put_all-printed (c ∷ s) o h f =
    let (ih, fits) =
      put_all-printed s (putchar o c) (putchar-enable o c ∙ h) (putchar-Fits o c h f) in
    (ih ∙ ap (λ xs. xs ++ s) (putchar-printed o c h) ∙ append_assoc (printed o) (c ∷ []) s, fits)
