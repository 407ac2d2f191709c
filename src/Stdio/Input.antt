-- ===== src/Stdio/Input.antt =====
-- Lines that `gets` reads.
use mathlib.Core.Path.{subst}
use mathlib.Core.Option.{some-injective}
use mathlib.Core.List.{append_assoc, append-nil}
use ertos.Base.{
  ℕ, suc, ◌+◌, ◌-◌, ◌≡◌, ◌≤◌, ◌<◌, ◌⊎◌, ◌∙◌, refl, ap, sym, List, [], ◌∷◌, ◌++◌, map, Option, some,
  none, All, arith, length, ◌==◌, ◌||◌, Bool, Bool-cases, inl, inr, true, false, Ptr, write,
  write_ne,
}
use ertos.CString.{Bytes, bytes}
use ertos.Stdio.{
  Out, Reading, Event, char, empty, failed, edit, gets_loop, gets, gets_end, putchar, put_all,
  buf_disable, buf_restore,
}
use ertos.Stdio.Stored.{placed, stored, stored-kept, stored_end, bytes-stored}

-- Within the buffer of `gets`, which ends at `top`.
record Within (orig top : Ptr) (m : Bytes) (g : Reading) : Type 0 where
  low : orig ≤ g.s
  high : g.s + g.size ≤ top
  kept : (a : Ptr) → (a < orig) ⊎ (top < a) → g.mem a ≡ m a

edit-Within :
    (orig top : Ptr) (m : Bytes) (g : Reading) (c : ℕ)
    → 0 < g.size
    → Within orig top m g
    → Within orig top m (edit orig g c)
unfolding edit write
edit-Within orig top m g c more w = record {
  low = ground (arith, w.low);
  high = ground (arith, w.low, w.high, more);
  kept = λ a l. ground (arith, w.kept a l, w.low, w.high, more, l);
}

-- The loop goes on behind a character that neither ends the line nor fills it.
gets_loop_on :
    (orig : Ptr) (g : Reading) (c : ℕ) (es : List Event)
    → (c == 10 || c == 13 || (edit orig g c).size == 0) ≡ false
    → gets_loop orig g (char c ∷ es) ≡ gets_loop orig (edit orig g c) es
unfolding gets_loop
gets_loop_on orig g c es h = rw h refl

gets_loop-Within :
    (es : List Event) (orig top : Ptr) (m : Bytes) (g : Reading) (r : Bool × Reading)
    → 0 < g.size
    → Within orig top m g
    → gets_loop orig g es ≡ some r
    → Within orig top m r.1
unfolding gets_loop
gets_loop-Within [] orig top m g r h w e = cc
gets_loop-Within (failed ∷ es) orig top m g r h w e =
    subst (λ (r : Bool × Reading). Within orig top m r.1) (some-injective _ _ e) w
gets_loop-Within (empty ∷ es) orig top m g r h w e = gets_loop-Within es orig top m g r h w e
gets_loop-Within (char c ∷ es) orig top m g r h w e =
    let g1 = edit orig g c in
    let w1 = edit-Within orig top m g c h w in
    elim (Bool-cases (c == 10 || c == 13 || g1.size == 0)) [
      | inl stop ↦
          subst (λ (r : Bool × Reading). Within orig top m r.1) (some-injective _ _ (rw stop at e))
            w1
      | inr on ↦
          gets_loop-Within es orig top m g1 r (ground (arith, on)) w1
            (sym (gets_loop_on orig g c es on) ∙ e)
    ]

gets_end-kept :
    (orig top : Ptr) (m : Bytes) (l : Option (Bool × Reading)) (rp : Option Ptr) (m' : Bytes)
    (o' : Out)
    → ((r : Bool × Reading) → l ≡ some r → Within orig top m r.1)
    → gets_end orig l ≡ some (rp, m', o')
    → (a : Ptr) → (a < orig) ⊎ (top < a)
    → m' a ≡ m a
unfolding gets_end
gets_end-kept orig top m none rp m' o' w e a l = cc
gets_end-kept orig top m (some (false, g)) rp m' o' w e a l =
    ap (λ (r : Option Ptr × Bytes × Out). r.1 a) (sym (some-injective _ _ e))
    ∙ (w (false, g) refl).kept a l
gets_end-kept orig top m (some (true, g)) rp m' o' w e a l =
    let b = w (true, g) refl in
    ap (λ (r : Option Ptr × Bytes × Out). r.1 a) (sym (some-injective _ _ e))
    ∙ write_ne g.mem g.s a 0 (ground (arith, l, b.low, b.high))
    ∙ b.kept a l

-- Whatever is typed, and however it is corrected, `gets` writes to no byte but the `size` ones of
-- the buffer and the one behind them.
pub gets_bound :
    (o : Out) (m : Bytes) (s : Ptr) (size : ℕ) (es : List Event) (rp : Option Ptr) (m' : Bytes)
    (o' : Out)
    → 0 < size
    → gets o m s size es ≡ some (rp, m', o')
    → (a : Ptr) → (a < s) ⊎ (s + size < a)
    → m' a ≡ m a
unfolding gets
gets_bound o m s size es rp m' o' h e =
    let g : Reading = record { out = buf_disable o; mem = m; s = s; size = size } in
    gets_end-kept s (s + size) m (gets_loop s g es) rp m' o'
      (λ r e1.
        gets_loop-Within es s (s + size) m g r h
          (record { low = omega arith; high = omega arith; kept = λ a l. refl }) e1)
      e

-- A character that is stored as it is.
abbrev pub IsPlain : ℕ → Type 0
IsPlain c = (c == 13 || c == 10 || c == 8 || c == 0x15) ≡ false

edit_plain :
    (orig : Ptr) (g : Reading) (c : ℕ)
    → IsPlain c
    → edit orig g c
      ≡ record g { out = putchar g.out c; mem = write g.mem g.s c; s = g.s + 1; size = g.size - 1 }
unfolding edit
edit_plain orig g c h = ground (arith, h)

-- The variables after characters that are stored as they are.
abbrev typed : Reading → List ℕ → Reading
typed g cs = record {
  out = put_all g.out cs;
  mem = placed g.mem g.s cs;
  s = g.s + length cs;
  size = g.size - length cs;
}

typed_next :
    (g : Reading) (c : ℕ) (cs : List ℕ)
    → typed
        (record g {
          out = putchar g.out c;
          mem = write g.mem g.s c;
          s = g.s + 1;
          size = g.size - 1;
        })
        cs
      ≡ typed g (c ∷ cs)
unfolding put_all
typed_next g c cs =
    ap
      (λ (x : ℕ). record {
        out = put_all (putchar g.out c) cs;
        mem = placed (write g.mem g.s c) (g.s + 1) cs;
        s = x;
        size = g.size - 1 - length cs;
      })
      (omega arith)
    ∙ ap
        (λ (x : ℕ). record {
          out = put_all (putchar g.out c) cs;
          mem = placed (write g.mem g.s c) (g.s + 1) cs;
          s = g.s + suc (length cs);
          size = x;
        })
        (omega arith)

plain_on :
    (orig : Ptr) (g : Reading) (c : ℕ) (es : List Event)
    → IsPlain c
    → 1 < g.size
    → gets_loop orig g (char c ∷ es)
      ≡ gets_loop orig
          (record g {
            out = putchar g.out c;
            mem = write g.mem g.s c;
            s = g.s + 1;
            size = g.size - 1;
          })
          es
unfolding gets_loop
plain_on orig g c es h lt = rw (edit_plain orig g c h) ground (arith, h, lt)

plain_last :
    (orig : Ptr) (g : Reading) (c : ℕ) (es : List Event)
    → IsPlain c
    → g.size ≡ 1
    → gets_loop orig g (char c ∷ es)
      ≡ some (
        true,
        record g { out = putchar g.out c; mem = write g.mem g.s c; s = g.s + 1; size = g.size - 1 },
      )
unfolding gets_loop
plain_last orig g c es h e = rw (edit_plain orig g c h) ground (arith, h, e)

typed_none : (g : Reading) → typed g [] ≡ g
unfolding put_all
typed_none g =
    ap (λ (x : ℕ). record { out = g.out; mem = g.mem; s = x; size = g.size - 0 }) (omega arith)
    ∙ ap (λ (x : ℕ). record { out = g.out; mem = g.mem; s = g.s; size = x }) (omega arith)

typed_one :
    (g : Reading) (c : ℕ)
    → record g { out = putchar g.out c; mem = write g.mem g.s c; s = g.s + 1; size = g.size - 1 }
      ≡ typed g (c ∷ [])
typed_one g c = sym (typed_none _) ∙ typed_next g c []

enter : (orig : Ptr) (g : Reading) → gets_loop orig g (char 13 ∷ []) ≡ some (true, g)
unfolding gets_loop edit
enter orig g = refl

-- The loop stores plain characters and echoes them, until `size` of them are there.
gets_loop_full :
    (cs : List ℕ) (c : ℕ) (orig : Ptr) (g : Reading)
    → All IsPlain (c ∷ cs)
    → g.size ≡ length (c ∷ cs)
    → gets_loop orig g (map char (c ∷ cs)) ≡ some (true, typed g (c ∷ cs))
gets_loop_full [] c orig g h e =
    plain_last orig g c [] h.0 e ∙ ap (λ g. some (true, g)) (typed_one g c)
gets_loop_full (d ∷ cs) c orig g h e =
    plain_on orig g c (map char (d ∷ cs)) h.0 (omega (arith, e))
    ∙ gets_loop_full cs d orig _ h.1 (omega (arith, e))
    ∙ ap (λ g. some (true, g)) (typed_next g c (d ∷ cs))

-- The loop reads plain characters up to a line end.
gets_loop_enter :
    (cs : List ℕ) (orig : Ptr) (g : Reading)
    → All IsPlain cs
    → length cs < g.size
    → gets_loop orig g (map char cs ++ (char 13 ∷ [])) ≡ some (true, typed g cs)
gets_loop_enter [] orig g h lt = enter orig g ∙ ap (λ g. some (true, g)) (sym (typed_none g))
gets_loop_enter (c ∷ cs) orig g h lt =
    plain_on orig g c (map char cs ++ (char 13 ∷ [])) h.0 (omega (arith, lt))
    ∙ gets_loop_enter cs orig _ h.1 (omega (arith, lt))
    ∙ ap (λ g. some (true, g)) (typed_next g c cs)

-- A call for each character.
abbrev pub singly : List ℕ → List (List ℕ)
singly [] = []
singly (c ∷ cs) = (c ∷ []) ∷ singly cs

-- Without the buffer, each character is a call of `cons_write`.
put_all-singly :
    (s : List ℕ) (o : Out)
    → put_all (record o { buf_enable = false }) s
      ≡ record o { buf_enable = false; calls = o.calls ++ singly s }
unfolding put_all putchar
put_all-singly [] o =
    ap (λ xs. record o { buf_enable = false; calls = xs }) (sym (append-nil o.calls))
put_all-singly (c ∷ s) o =
    put_all-singly s (record o { calls = o.calls ++ ((c ∷ []) ∷ []) })
    ∙ ap (λ xs. record o { buf_enable = false; calls = xs })
        (append_assoc o.calls ((c ∷ []) ∷ []) (singly s))

-- A line of `size` plain characters and no line end is read in full. The characters stand in the
-- buffer, and the terminator is written to byte `size`, the one behind it; no other byte is
-- changed. The echo is handed to `cons_write` at once, a call for each character, ahead of what
-- waits in the output buffer, and that buffer is on or off again as before.
pub gets_full :
    (o : Out) (m : Bytes) (s : Ptr) (c : ℕ) (cs : List ℕ)
    → All IsPlain (c ∷ cs)
    → let size = length (c ∷ cs) in
      (m' : Bytes) × (gets o m s size (map char (c ∷ cs))
        ≡ some
            (some s, m', record o { buf_last = o.buf_enable; calls = o.calls ++ singly (c ∷ cs) }))
      × (bytes m' s size ≡ c ∷ cs)
      × (m' (s + size) ≡ 0)
      × ((a : Ptr) → (a < s) ⊎ (s + size < a) → m' a ≡ m a)
unfolding gets gets_end buf_disable buf_restore
gets_full o m s c cs h =
    let size = length (c ∷ cs) in
    let g : Reading = record { out = buf_disable o; mem = m; s = s; size = size } in
    (
      stored m s (c ∷ cs),
      ap (gets_end s) (gets_loop_full cs c s g h refl)
          ∙ ap (λ o1. some (some s, stored m s (c ∷ cs), buf_restore o1))
              (put_all-singly (c ∷ cs) (record o { buf_last = o.buf_enable })),
      bytes-stored (c ∷ cs) m s,
      stored_end (c ∷ cs) m s,
      λ a l. stored-kept (c ∷ cs) m s a l,
    )

-- A line of plain characters that is shorter than the buffer, and a carriage return behind it, is
-- read as it was typed.
pub gets_enter :
    (o : Out) (m : Bytes) (s : Ptr) (cs : List ℕ) (n : ℕ)
    → All IsPlain cs
    → length cs < n
    → (o' : Out) × gets o m s n (map char cs ++ (char 13 ∷ [])) ≡ some (some s, stored m s cs, o')
unfolding gets gets_end
gets_enter o m s cs n h lt = (_, ap (gets_end s) (gets_loop_enter cs s _ h lt))
