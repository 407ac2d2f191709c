-- ===== src/Stdio/Tests.antt =====
-- Runs of the output buffer and of line input.
use ertos.Base.{Ptr, write, ◌<◌, ◌⊎◌}
use ertos.Base.{◌-◌, ◌≡◌, refl, true, [], ◌∷◌, some, arith, map, if◌then◌else◌, ◌==◌, u32_mod}
use ertos.Stdio.{
  Out, queue_char, flush, char, empty, put_all, gets, gets_loop, edit, printf, int, digits, decimal,
}
use ertos.Stdio.Buffer.{put_all-printed, printed, Fits}
use ertos.Stdio.Decimal.{atoi-decimal}
use ertos.Stdio.Input.{singly, gets_full}
use ertos.CString.{Bytes, bytes, atoi}
use ertos.CString.Number.{Stands}

-- One character waits in the buffer.
abbrev waiting : Out
waiting = record { buf = b'>' ∷ []; buf_enable = true; buf_last = true; calls = [] }

-- `printf("%d%%\n", 42)`: `%%` prints one `%`, which is not counted.
percent :
    printf waiting (b'%' ∷ b'd' ∷ b'%' ∷ b'%' ∷ 10 ∷ []) (int 42 ∷ []) 0
    ≡ some (3, record waiting { buf = []; calls = (b'>' ∷ b'4' ∷ b'2' ∷ b'%' ∷ 10 ∷ []) ∷ [] })
unfolding printf queue_char flush
percent = refl

-- The least `int` has no digits.
least : decimal 0x80000000 ≡ b'-' ∷ []
unfolding decimal digits
least = refl

-- "-12" at 100.
abbrev memory : Bytes
memory a = if a == 100 then b'-' else if a == 101 then b'1' else if a == 102 then b'2' else 0

minus_twelve : Stands memory 100 (decimal (u32_mod - 12))
unfolding decimal digits
minus_twelve = record { at = λ i h. ground arith; ends = refl }

atoi-decimal_example : atoi 11 memory 100 ≡ some (u32_mod - 12)
atoi-decimal_example =
    atoi-decimal (u32_mod - 12) 11 memory 100 (omega arith) (omega arith) minus_twelve (omega arith)

put_all-printed_example :
    (printed (put_all waiting (b'a' ∷ 10 ∷ b'b' ∷ [])) ≡ b'>' ∷ b'a' ∷ 10 ∷ b'b' ∷ [])
    × Fits (put_all waiting (b'a' ∷ 10 ∷ b'b' ∷ []))
put_all-printed_example =
    put_all-printed (b'a' ∷ 10 ∷ b'b' ∷ []) waiting refl (record { buf = omega arith; calls = tt })

-- Room for three bytes at 300, and no backspace.
gets_full_example :
    (m' : Bytes) × (gets waiting memory 300 3 (map char (b'a' ∷ b'b' ∷ b'c' ∷ []))
      ≡ some (some 300, m', record waiting { calls = singly (b'a' ∷ b'b' ∷ b'c' ∷ []) }))
    × (bytes m' 300 3 ≡ b'a' ∷ b'b' ∷ b'c' ∷ [])
    × (m' 303 ≡ 0)
    × ((a : Ptr) → (a < 300) ⊎ (303 < a) → m' a ≡ memory a)
gets_full_example = gets_full waiting memory 300 b'a' (b'b' ∷ b'c' ∷ []) (refl, (refl, (refl, tt)))

-- "x", taken back, and "y".
corrected :
    gets waiting memory 300 3 (char b'x' ∷ (empty ∷ (char 8 ∷ (char b'y' ∷ (char 10 ∷ [])))))
    ≡ some (
      some 300,
      write (write (write memory 300 b'x') 300 b'y') 301 0,
      record waiting {
        calls = (b'x' ∷ []) ∷ ((8 ∷ []) ∷ ((b' ' ∷ []) ∷ ((8 ∷ []) ∷ ((b'y' ∷ []) ∷ []))));
      },
    )
unfolding gets gets_loop edit
corrected = refl
