-- ===== src/Cksum/Tests.antt =====
-- Checksums of the header of a small message.
use ertos.Base.{◌*◌, ◌%◌, ◌≡◌, ◌<◌, ◌↔◌, refl, some, arith, ◌==◌, if◌then◌else◌}
use ertos.CString.{Bytes}
use ertos.Cksum.{add_words, ocksum16}
use ertos.Cksum.Sum.{IsBytes, total, ocksum16-accepts}

-- Three words, the last one 0.
abbrev three : Bytes
three a = if a == 10 then 0xFF else if a == 12 then 0x34 else if a == 13 then 0x12 else 0

three-IsBytes : IsBytes three
three-IsBytes a = ground arith

three_sum : ocksum16 4 three 10 6 ≡ some 0x1333
unfolding ocksum16 add_words
three_sum = refl

ocksum16-accepts_example :
    (ocksum16 4 three 10 (2 * 3) ≡ some 65535)
    ↔ ((0 < total three 10 3) × (total three 10 3 % 65535 ≡ 0))
ocksum16-accepts_example = ocksum16-accepts 3 4 three 10 three-IsBytes (omega arith) (omega arith)
