-- ===== src/Cksum.antt =====
-- The Internet checksum of net/core/pkt.h, ocksum16, and its copy in net/trans/udp.c.
pub mod Sum
pub mod Ends
mod Tests
use mathlib.Core.Option
use ertos.Base.{
  ℕ, zero, suc, ◌+◌, ◌-◌, ◌/◌, ◌%◌, Ptr, Option, none, some, ◌==◌, if◌then◌else◌, u32_mod,
}
use ertos.CString.{Bytes}
use ertos.Wire.{get16}

-- `while (len > 0) { sum += *p++; len -= 2; }` on fuel; `none` means that the fuel ran out.
unfoldable pub add_words : ℕ → Bytes → (p : Ptr) → (len sum : ℕ) → Option ℕ
add_words zero m p len sum = none
add_words (suc f) m p len sum =
    let rest =
      add_words f m (p + 2) ((len + u32_mod - 2) % u32_mod) ((sum + get16 m p) % u32_mod) in
    if len == 0 then some sum else rest

-- `sum = (sum & 0xffff) + (sum >> 16)`, returned as a `uint16_t`.
abbrev pub fold : ℕ → ℕ
fold sum = (sum % 65536 + sum / 65536) % 65536

-- `ocksum16`
unfoldable pub ocksum16 : ℕ → Bytes → (buf : Ptr) → (len : ℕ) → Option ℕ
unfolding add_words
ocksum16 f m buf len = Option.map (λ sum. fold sum) (add_words f m buf len 0)

-- `udp_ocksum16`, over two buffers.
unfoldable pub udp_ocksum16 :
    ℕ → Bytes → (buf1 : Ptr) → (len1 : ℕ) → (buf2 : Ptr) → (len2 : ℕ) → Option ℕ
unfolding add_words
udp_ocksum16 f m buf1 len1 buf2 len2 =
    Option.bind (add_words f m buf1 len1 0)
      λ sum. Option.map (λ total. fold total) (add_words f m buf2 len2 sum)
