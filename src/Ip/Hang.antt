-- ===== src/Ip/Hang.antt =====
-- A message of odd length keeps the receive task in the checksum's loop for ever.
use mathlib.Core.Option
use ertos.Ip.{trim, dispatch, accept, input}
use ertos.Cksum.{ocksum16}
use ertos.Wire.Laws.{get16-put16}
use ertos.Base.{◌≤◌, ◌<◌, ◌≢◌, ◌∙◌, some, le→ltb, refl}
use ertos.Base.{ℕ, ◌+◌, ◌%◌, ◌≡◌, Ptr, none, arith, write}
use ertos.CString.{Bytes}
use ertos.Wire.{get16, put16, put32, ntohs}
use ertos.Cksum.Sum.{ocksum16_odd}
use ertos.Net.{Net}
use ertos.Ip.{hdr_len, body_len, to_host, icmp_input}

pub to_host-first : (m : Bytes) (a : Ptr) → to_host m a a ≡ m a
unfolding to_host put32 put16 write
to_host-first m a = ground arith

to_host-proto : (m : Bytes) (a : Ptr) → to_host m a (a + 9) ≡ m (a + 9)
unfolding to_host put32 put16 write
to_host-proto m a = ground arith

later_fields :
    (m : Bytes) (a b : Ptr) (v1 v2 v3 v4 : ℕ)
    → b < a + 4
    → put32 (put32 (put16 (put16 m (a + 4) v1) (a + 10) v2) (a + 12) v3) (a + 16) v4 b ≡ m b
unfolding put32 put16 write
later_fields m a b v1 v2 v3 v4 h = ground arith

to_host-len :
    (m : Bytes) (a : Ptr)
    → get16 (to_host m a) (a + 2) ≡ get16 (put16 m (a + 2) (ntohs (get16 m (a + 2)))) (a + 2)
unfolding to_host
to_host-len m a =
    let m1 = put16 m (a + 2) (ntohs (get16 m (a + 2))) in
    omega (
      arith,
      later_fields m1 a (a + 2) _ _ _ _ (omega arith),
      later_fields m1 a (a + 2 + 1) _ _ _ _ (omega arith),
    )

pub to_host-ntohs : (m : Bytes) (a : Ptr) → get16 (to_host m a) (a + 2) ≡ ntohs (get16 m (a + 2))
to_host-ntohs m a = to_host-len m a ∙ get16-put16 m (a + 2) (ntohs (get16 m (a + 2))) (omega arith)

icmp_input_odd : (f : ℕ) (n : Net) (p : Ptr) → body_len n p % 2 ≡ 1 → icmp_input f n p ≡ none
unfolding icmp_input Option.bind
icmp_input_odd f n p h =
    rw (ocksum16_odd f n.bytes ((n.pkt p).data_ + hdr_len n.bytes (n.pkt p).data_) (body_len n p) h)
      refl

-- An IP packet that passes every check of `en_ip_input`: its header lies within it and its checksum
-- is right, and its length is the one of its header. It is not one that Ethernet padded.
pub record IsIntact (f : ℕ) (n : Net) (p : Ptr) : Type 0 where
  pub within : hdr_len n.bytes (n.pkt p).data_ ≤ (n.pkt p).len
  pub sum : ocksum16 f n.bytes (n.pkt p).data_ (hdr_len n.bytes (n.pkt p).data_) ≡ some 0xffff
  pub ihl : 5 ≤ n.bytes (n.pkt p).data_ % 16
  pub len : ntohs (get16 n.bytes ((n.pkt p).data_ + 2)) ≡ (n.pkt p).len
  pub whole : (n.pkt p).len ≢ 46

trim_whole : (n : Net) (p : Ptr) → (n.pkt p).len ≢ 46 → trim n p ≡ n
unfolding trim
trim_whole n p h = ground arith

dispatch_odd :
    (f : ℕ) (n : Net) (p : Ptr) (proto : ℕ)
    → proto ≡ 1
    → (n.pkt p).len % 2 ≡ 1
    → dispatch f n p proto ≡ none
unfolding dispatch
dispatch_odd f n p proto e odd = rw (e, icmp_input_odd f n p (omega (arith, odd))) refl

accept_odd :
    (f : ℕ) (n : Net) (p : Ptr)
    → IsIntact f n p
    → n.bytes ((n.pkt p).data_ + 9) ≡ 1
    → (n.pkt p).len % 2 ≡ 1
    → accept f n p 0xffff ≡ none
unfolding accept
accept_odd f n p i proto odd =
    let a = (n.pkt p).data_ in
    let n1 = record n { bytes = to_host n.bytes a } in
    let same : trim n1 p ≡ n1 = trim_whole n1 p i.whole in
    let next =
      dispatch_odd f n1 p (to_host n.bytes a (a + 9)) (to_host-proto n.bytes a ∙ proto) odd in
    rw same (ground (arith, to_host-first n.bytes a, to_host-ntohs n.bytes a, i.len, i.ihl, next))

-- An intact ICMP message with an odd number of bytes, which anyone may send, is never done with:
-- whatever the fuel, `en_ip_input` does not return.
pub input_odd :
    (f : ℕ) (n : Net) (p : Ptr)
    → IsIntact f n p
    → n.bytes ((n.pkt p).data_ + 9) ≡ 1
    → (n.pkt p).len % 2 ≡ 1
    → input f n p ≡ none
unfolding input Option.bind
input_odd f n p i proto odd =
    rw (le→ltb (n.pkt p).len (hdr_len n.bytes (n.pkt p).data_) i.within, i.sum)
      (accept_odd f n p i proto odd)
