-- ===== src/CString/Tests.antt =====
-- Copies in a small memory.

use ertos.Base.{◌≡◌, refl, arith, write, ◌==◌, if◌then◌else◌}
use ertos.CString.{Bytes, strncpy, strncpy_loop, pad}
use ertos.CString.Overrun.{IsString}

-- "hi" at 100, and everywhere else 9.
abbrev memory : Bytes
memory a = if a == 100 then b'h' else if a == 101 then b'i' else if a == 102 then 0 else 9

hi : IsString memory 100 2
hi = record { ends = refl; before = λ i h. ground arith }

-- `strncpy(20, "hi", 4)` writes the bytes 20 to 24, five of them.
writes_five :
    (strncpy memory 20 100 4 20 ≡ b'h')
    × (strncpy memory 20 100 4 24 ≡ 0)
    × (strncpy memory 20 100 4 25 ≡ 9)
unfolding strncpy strncpy_loop pad write
writes_five = (refl, refl, refl)
