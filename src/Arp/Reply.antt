-- ===== src/Arp/Reply.antt =====
-- The reply that an ARP request is made into, field by field.
use ertos.Arp.{dst_proto}
use ertos.Cksum.Sum.{IsBytes}
use ertos.Base.{zero, suc, [], ◌∷◌}
use ertos.Base.{
  ℕ, ◌+◌, ◌*◌, ◌%◌, ◌≡◌, ◌≤◌, ◌<◌, ◌⊎◌, inl, inr, ◌∙◌, ap, refl, Ptr, List, arith, length, get_or,
}
use ertos.CString.{Bytes, memcpy}
use ertos.Wire.{put16, put_bytes, bytes32, ntohl}
use ertos.Wire.Laws.{put16_elsewhere, put_bytes_out, put_bytes_in, memcpy_out, memcpy_in}
use ertos.Arp.{convert, to_sender, from_us, make_reply, ar_hlen, ar_plen, requested, arp_op_reply}

-- The message after the two copies, for addresses of 6 and 4 bytes.
swapped : Bytes → Ptr → Bytes
swapped m a = memcpy (memcpy m (a + 8 + 10) (a + 8) 6) (a + 8 + 16) (a + 8 + 6) 4

-- The message after the sender's addresses are put in.
signed : Bytes → Ptr → (mac own : List ℕ) → Bytes
signed m a mac own = put_bytes (put_bytes m (a + 8) mac) (a + 8 + 6) own

swapped-front : (m : Bytes) (a b : Ptr) → b < a + 8 + 10 → swapped m a b ≡ m b
unfolding swapped
swapped-front m a b h =
    memcpy_out _ (a + 8 + 16) (a + 8 + 6) 4 b (omega arith) (inl (omega (arith, h)))
    ∙ memcpy_out m (a + 8 + 10) (a + 8) 6 b (omega arith) (inl h)

swapped-hrd : (m : Bytes) (a : Ptr) (i : ℕ) → i < 6 → swapped m a (a + 8 + 10 + i) ≡ m (a + 8 + i)
unfolding swapped
swapped-hrd m a i h =
    memcpy_out _ (a + 8 + 16) (a + 8 + 6) 4 (a + 8 + 10 + i) (omega arith) (inl (omega (arith, h)))
    ∙ memcpy_in m (a + 8 + 10) (a + 8) 6 i (omega arith) h

swapped-proto :
    (m : Bytes) (a : Ptr) (i : ℕ) → i < 4 → swapped m a (a + 8 + 16 + i) ≡ m (a + 8 + 6 + i)
unfolding swapped
swapped-proto m a i h =
    memcpy_in _ (a + 8 + 16) (a + 8 + 6) 4 i (omega arith) h
    ∙ memcpy_out m (a + 8 + 10) (a + 8) 6 (a + 8 + 6 + i) (omega arith) (inl (omega (arith, h)))

module _ (m : Bytes) (a : Ptr) (mac own : List ℕ) (six : length mac ≡ 6)
    (four : length own ≡ 4) where
  signed_outside : (b : Ptr) → (b < a + 8) ⊎ (a + 8 + 10 ≤ b) → signed m a mac own b ≡ m b
  unfolding signed
  signed_outside b h =
      put_bytes_out _ (a + 8 + 6) own b (ground (arith, four, h))
      ∙ put_bytes_out m (a + 8) mac b (ground (arith, six, h))

  signed-hrd : (i : ℕ) → i < 6 → signed m a mac own (a + 8 + i) ≡ get_or mac i 0 % 256
  unfolding signed
  signed-hrd i h =
      put_bytes_out _ (a + 8 + 6) own (a + 8 + i) (inl (omega (arith, h)))
      ∙ put_bytes_in m (a + 8) mac i (omega (arith, six, h))

  signed-proto : (i : ℕ) → i < 4 → signed m a mac own (a + 8 + 6 + i) ≡ get_or own i 0 % 256
  unfolding signed
  signed-proto i h = put_bytes_in _ (a + 8 + 6) own i (omega (arith, four, h))

-- The conversion of the header touches its first 8 bytes alone.
convert-body : (m : Bytes) (a b : Ptr) → a + 8 ≤ b → convert m a b ≡ m b
unfolding convert
convert-body m a b h =
    put16_elsewhere _ (a + 6) _ b (omega (arith, h)) (omega (arith, h))
    ∙ put16_elsewhere _ (a + 2) _ b (omega (arith, h)) (omega (arith, h))
    ∙ put16_elsewhere m a _ b (omega (arith, h)) (omega (arith, h))

to_sender-swapped :
    (m : Bytes) (a : Ptr) → ar_hlen m a ≡ 6 → ar_plen m a ≡ 4 → to_sender m a ≡ swapped m a
unfolding to_sender swapped
to_sender-swapped m a h p =
    let m1 = memcpy m (a + 8 + 10) (a + 8) 6 in
    let h1 : ar_hlen m1 a ≡ 6 =
      memcpy_out m (a + 8 + 10) (a + 8) 6 (a + 4) (omega arith) (inl (omega arith)) ∙ h in
    let p1 : ar_plen m1 a ≡ 4 =
      memcpy_out m (a + 8 + 10) (a + 8) 6 (a + 5) (omega arith) (inl (omega arith)) ∙ p in
    rw (h, p) (rw (h1, p1) refl)

from_us-signed :
    (m : Bytes) (a : Ptr) (mac : List ℕ) (addr : ℕ)
    → ar_hlen m a ≡ 6
    → from_us m a mac addr ≡ signed m a mac (bytes32 (ntohl addr))
unfolding from_us signed
from_us-signed m a mac addr h =
    let m1 = put_bytes m (a + 8) mac in
    let h1 : ar_hlen m1 a ≡ 6 = put_bytes_out m (a + 8) mac (a + 4) (inl (omega arith)) ∙ h in
    rw h1 refl

-- An ARP request in host byte order, of the lengths that `en_arp_input` lets pass.
pub record IsMessage (m : Bytes) (a : Ptr) : Type 0 where
  pub hlen : ar_hlen m a ≡ 6
  pub plen : ar_plen m a ≡ 4

make_reply-steps :
    (m : Bytes) (a : Ptr) (mac : List ℕ)
    → IsMessage m a
    → make_reply m a mac
      ≡ convert
          (signed
            (swapped (put16 m (a + 6) arp_op_reply) a)
            a
            mac
            (bytes32 (ntohl (requested m a))))
          a
unfolding make_reply
make_reply-steps m a mac r =
    let m1 = put16 m (a + 6) arp_op_reply in
    let h : ar_hlen m1 a ≡ 6 =
      put16_elsewhere m (a + 6) arp_op_reply (a + 4) (omega arith) (omega arith) ∙ r.hlen in
    let p : ar_plen m1 a ≡ 4 =
      put16_elsewhere m (a + 6) arp_op_reply (a + 5) (omega arith) (omega arith) ∙ r.plen in
    let h2 : ar_hlen (swapped m1 a) a ≡ 6 = swapped-front m1 a (a + 4) (omega arith) ∙ h in
    ap (λ x. convert x a)
      (ap (λ x. from_us x a mac (requested m a)) (to_sender-swapped m1 a h p)
        ∙ from_us-signed (swapped m1 a) a mac (requested m a) h2)

own_byte :
    (b0 b1 b2 b3 i : ℕ)
    → b0 < 256
    → b1 < 256
    → b2 < 256
    → b3 < 256
    → get_or (bytes32 (ntohl (b0 * 16777216 + b1 * 65536 + b2 * 256 + b3))) i 0 % 256
      ≡ get_or (b0 ∷ b1 ∷ b2 ∷ b3 ∷ []) i 0
own_byte b0 b1 b2 b3 zero h0 h1 h2 h3 = omega arith
own_byte b0 b1 b2 b3 (suc zero) h0 h1 h2 h3 = omega arith
own_byte b0 b1 b2 b3 (suc (suc zero)) h0 h1 h2 h3 = omega arith
own_byte b0 b1 b2 b3 (suc (suc (suc zero))) h0 h1 h2 h3 = omega arith
own_byte b0 b1 b2 b3 (suc (suc (suc (suc i)))) h0 h1 h2 h3 = refl

four_bytes :
    (m : Bytes) (p : Ptr) (i : ℕ)
    → i < 4
    → get_or (m p ∷ m (p + 1) ∷ m (p + 2) ∷ m (p + 3) ∷ []) i 0 ≡ m (p + i)
four_bytes m p zero h = ap m (omega arith)
four_bytes m p (suc zero) h = refl
four_bytes m p (suc (suc zero)) h = refl
four_bytes m p (suc (suc (suc zero))) h = refl
four_bytes m p (suc (suc (suc (suc i)))) h = absurd (omega (arith, h))

asked-for :
    (m : Bytes) (a : Ptr) (i : ℕ)
    → IsBytes m
    → IsMessage m a
    → i < 4
    → get_or (bytes32 (ntohl (requested m a))) i 0 % 256 ≡ m (a + 8 + 16 + i)
asked-for m a i b r h =
    let p = dst_proto m a in
    let at : p + i ≡ a + 8 + 16 + i = omega (arith, r.hlen, r.plen) in
    own_byte (m p) (m (p + 1)) (m (p + 2)) (m (p + 3)) i (b p) (b (p + 1)) (b (p + 2)) (b (p + 3))
    ∙ four_bytes m p i h
    ∙ ap m at

-- The reply of an interface with the address `mac` to an ARP request for 6-byte hardware and 4-byte
-- protocol addresses: it goes back to the hardware and protocol addresses that the request came
-- from, and it comes from `mac` and from the protocol address that was asked for, byte by byte.
pub make_reply-fields :
    (m : Bytes) (a : Ptr) (mac : List ℕ) (i : ℕ)
    → IsBytes m
    → IsMessage m a
    → length mac ≡ 6
    → let m' = make_reply m a mac in
      (i < 6 → m' (a + 8 + 10 + i) ≡ m (a + 8 + i))
      × (i < 4 → m' (a + 8 + 16 + i) ≡ m (a + 8 + 6 + i))
      × (i < 6 → m' (a + 8 + i) ≡ get_or mac i 0 % 256)
      × (i < 4 → m' (a + 8 + 6 + i) ≡ m (a + 8 + 16 + i))
make_reply-fields m a mac i b r six =
    let m1 = put16 m (a + 6) arp_op_reply in
    let own = bytes32 (ntohl (requested m a)) in
    let m2 = swapped m1 a in
    let m3 = signed m2 a mac own in
    let at = λ (b : Ptr). ap (λ (x : Bytes). x b) (make_reply-steps m a mac r) in
    (
      λ lt.
          at (a + 8 + 10 + i)
          ∙ convert-body m3 a (a + 8 + 10 + i) (omega arith)
          ∙ signed_outside m2 a mac own six refl (a + 8 + 10 + i) (inr (omega arith))
          ∙ swapped-hrd m1 a i lt
          ∙ put16_elsewhere m (a + 6) arp_op_reply (a + 8 + i) (omega arith) (omega arith),
      λ lt.
          at (a + 8 + 16 + i)
          ∙ convert-body m3 a (a + 8 + 16 + i) (omega arith)
          ∙ signed_outside m2 a mac own six refl (a + 8 + 16 + i) (inr (omega arith))
          ∙ swapped-proto m1 a i lt
          ∙ put16_elsewhere m (a + 6) arp_op_reply (a + 8 + 6 + i) (omega arith) (omega arith),
      λ lt.
          at (a + 8 + i)
          ∙ convert-body m3 a (a + 8 + i) (omega arith)
          ∙ signed-hrd m2 a mac own six refl i lt,
      λ lt.
          at (a + 8 + 6 + i)
          ∙ convert-body m3 a (a + 8 + 6 + i) (omega arith)
          ∙ signed-proto m2 a mac own six refl i lt
          ∙ asked-for m a i b r lt,
    )
