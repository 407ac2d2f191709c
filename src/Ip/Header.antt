-- ===== src/Ip/Header.antt =====
-- The header that `en_ip_output` sends, and the one that `en_ip_input` converts.
use mathlib.Core.Path.{subst}
use ertos.Base.{[], ◌∷◌, write}
use ertos.Base.{ℕ, ◌+◌, ◌-◌, ◌*◌, ◌/◌, ◌%◌, ◌≡◌, ◌<◌, ◌↔◌, Ptr, List, some, arith}
use ertos.CString.{Bytes}
use ertos.Wire.{put_bytes}
use ertos.Cksum.{fold}
use ertos.Cksum.Sum.{IsBytes, total, ocksum16-total, ocksum16-accepts, complement_all_ones}
use ertos.Ip.{header, header_sum}

abbrev alone : List ℕ → Bytes
alone hdr = put_bytes (λ a. 0) 0 hdr

write-byte : (m : Bytes) (p : Ptr) (v a : ℕ) → m a < 256 → v < 256 → write m p v a < 256
unfolding write
write-byte m p v a h l = ground arith

put_bytes-IsBytes : (m : Bytes) (p : Ptr) (bs : List ℕ) → IsBytes m → IsBytes (put_bytes m p bs)
unfolding put_bytes
put_bytes-IsBytes m p [] h = h
put_bytes-IsBytes m p (b ∷ bs) h =
    put_bytes-IsBytes (write m p (b % 256)) (p + 1) bs
      (λ a. write-byte m p (b % 256) a (h a) (omega arith))

-- The sum of the words of the header before the checksum is stored.
pub words : (len src dst : ℕ) → ℕ
words len src dst = total (alone (header len src dst 0)) 0 10

with_cksum :
    (len src dst c : ℕ)
    → c < 65536
    → total (alone (header len src dst c)) 0 10 ≡ words len src dst + c
unfolding words put_bytes write
with_cksum len src dst c h = omega arith

words-lt : (len src dst : ℕ) → words len src dst < 65535 * 11
unfolding words put_bytes write
words-lt len src dst = omega arith

alone-IsBytes : (hdr : List ℕ) → IsBytes (alone hdr)
alone-IsBytes hdr = put_bytes-IsBytes (λ a. 0) 0 hdr (λ a. omega arith)

sum_plain :
    (f len src dst : ℕ)
    → 10 < f
    → header_sum f (header len src dst 0) ≡ some (fold (words len src dst))
unfolding header_sum words
sum_plain f len src dst h =
    let hdr = header len src dst 0 in
    ocksum16-total 10 f (alone hdr) 0 (alone-IsBytes hdr) (omega arith) h

sum_accepts :
    (f len src dst c : ℕ)
    → 10 < f
    → c < 65536
    → let t = words len src dst + c in
      (header_sum f (header len src dst c) ≡ some 65535) ↔ ((0 < t) × (t % 65535 ≡ 0))
unfolding header_sum
sum_accepts f len src dst c h l =
    let hdr = header len src dst c in
    subst (λ (t : ℕ). (header_sum f hdr ≡ some 65535) ↔ ((0 < t) × (t % 65535 ≡ 0)))
      (with_cksum len src dst c l)
      (ocksum16-accepts 10 f (alone hdr) 0 (alone-IsBytes hdr) (omega arith) h)

-- The header that `en_ip_output` sends, its checksum the complement of what `ocksum16` returns: a
-- receiver's `ocksum16` accepts it exactly if adding the carries to the sum of its words carried no
-- further. More than 10 rounds are enough for the loop.
pub header_accepted :
    (f len src dst : ℕ)
    → 10 < f
    → let t = words len src dst in
      (header_sum f (header len src dst 0) ≡ some (fold t))
      × ((header_sum f (header len src dst (65535 - fold t)) ≡ some 65535)
          ↔ (t % 65536 + t / 65536 < 65536))
header_accepted f len src dst h =
    let t = words len src dst in
    let checks = sum_accepts f len src dst (65535 - fold t) h (omega arith) in
    let sends = complement_all_ones t (omega (arith, words-lt len src dst)) in
    (sum_plain f len src dst h, (λ q. sends.0 (checks.0 q), λ q. checks.1 (sends.1 q)))
