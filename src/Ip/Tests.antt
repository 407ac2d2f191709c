-- ===== src/Ip/Tests.antt =====
-- An ICMP message of one byte in an IP packet of 21 bytes at 0x2000, and one of 22 bytes.
use ertos.Base.{
  ℕ, ◌-◌, ◌≡◌, ◌≢◌, refl, List, [], ◌∷◌, some, none, arith, get_or, ltb, if◌then◌else◌,
}
use ertos.Base.Int.{ℤ, ok, err}
use ertos.Cksum.{add_words, ocksum16}
use ertos.Cksum.Ends.{Ends}
use ertos.Net.{Net}
use ertos.Pkt.Tests.{demo}
use ertos.Ip.{input}
use ertos.Ip.Hang.{input_odd}
use ertos.Ip.Returns.{input-Ends}
use ertos.Ip.Rejects.{input_refused}

abbrev ping : List ℕ
ping =
    0x45 ∷ 0 ∷ 0 ∷ 21 ∷ 0 ∷ 0 ∷ 0 ∷ 0 ∷ 64 ∷ 1 ∷ 0x66 ∷ 0xe6 ∷ 10 ∷ 0 ∷ 0 ∷ 1 ∷ 10 ∷ 0 ∷ 0 ∷ 2 ∷ 8
    ∷ []

abbrev frame : List ℕ → ℕ → Net
frame bs len = record demo {
  bytes = λ a. if ltb a 0x2000 then 0 else get_or bs (a - 0x2000) 0;
  pkt = λ p. record { data_ = 0x2000; len = len; allocated = 64; eth_if = 0x300 };
}

ping_sum : ocksum16 40 (frame ping 21).bytes 0x2000 20 ≡ some 0xffff
unfolding ocksum16 add_words
ping_sum = refl

input_odd_example : input 40 (frame ping 21) 0x500 ≡ none
input_odd_example =
    input_odd 40 (frame ping 21) 0x500
      (record {
        within = omega arith;
        sum = ping_sum;
        ihl = omega arith;
        len = refl;
        whole = omega arith;
      })
      refl refl

-- The same with a length of 22 in the header, and with it a wrong checksum.
abbrev long : List ℕ
long = 0x45 ∷ 0 ∷ 0 ∷ 22 ∷ 0 ∷ 0 ∷ 0 ∷ 0 ∷ 64 ∷ 1 ∷ 0x66 ∷ 0xe6 ∷ []

input-Ends_example : Ends (input 40 (frame long 22) 0x500)
input-Ends_example =
    input-Ends 40 (frame long 22) 0x500
      (record { even = refl; covers = omega arith; small = omega arith; fuel = omega arith })

short : input 40 (frame ping 3) 0x500 ≡ some (err, frame ping 3)
unfolding input
short = refl

err-ne-ok : ◌≢◌ {A = ℤ} err ok
err-ne-ok e = cc

input_refused_example : (◌≡◌ {A = ℤ} err err) × ((frame ping 3).mem ≡ (frame ping 3).mem)
input_refused_example = input_refused 40 (frame ping 3) 0x500 (err, frame ping 3) short err-ne-ok
