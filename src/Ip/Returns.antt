-- ===== src/Ip/Returns.antt =====
-- `en_ip_input` returns on every message with an even length in its header.
use ertos.Base.{◌||◌, ap, ◌∙◌, refl}
use ertos.Base.{refl}
use mathlib.Core.Option
use ertos.Base.{
  ℕ, ◌+◌, ◌-◌, ◌/◌, ◌%◌, ◌≡◌, ◌≤◌, ◌<◌, Ptr, false, Option, none, some, arith, write, not, ltb,
  ltb→le, ◌==◌, u32_mod,
}
use ertos.Base.Int.{ℤ, ok, err}
use ertos.CString.{Bytes}
use ertos.Wire.{get16, put16, ntohs}
use ertos.Cksum.{ocksum16}
use ertos.Cksum.Ends.{Ends, Ends-map, Ends-bind, Ends-if, ocksum16-Ends}
use ertos.Route
use ertos.Net.{Net}
use ertos.Ip.Hang.{to_host-first, to_host-ntohs}
use ertos.Ip.{
  hdr_len, body_len, to_host, trim, icmp_input, icmp_accept, icmp_to_host, make_echo_reply, echo,
  output, output_on, header_sum, dispatch, accept, input,
}

output-Ends : (f : ℕ) (n : Net) (p : Ptr) (dst : ℕ) → 10 < f → Ends (output f n p dst)
unfolding output output_on header_sum
output-Ends f n p dst h =
    elim (Route.lookup n.en_ip_route_list dst)
      as (λ r. Ends (elim r as (λ x. Option (ℤ × Net)) [
        | none ↦ some (err, n)
        | some rt ↦ Option.map (λ n'. (ok, n')) (output_on f n p dst rt)
      ])) [
        | none ↦ tt
        | some rt ↦
            Ends-map _ _
              (Ends-map _ _ (ocksum16-Ends f _ 0 20 refl (omega arith) (omega (arith, h))))
      ]

first_byte : (m : Bytes) (a c : Ptr) → a < c → icmp_to_host m c a ≡ m a
unfolding icmp_to_host put16 write
first_byte m a c h = ground arith

reply_first_byte : (m : Bytes) (a c : Ptr) → a < c → make_echo_reply m c a ≡ m a
unfolding make_echo_reply put16 write
reply_first_byte m a c h = ground arith

-- What the loops need: a whole number of words behind the header, and fuel for them.
record Fits (f : ℕ) (n : Net) (p : Ptr) : Type 0 where
  ihl : 0 < n.bytes (n.pkt p).data_ % 16
  within : hdr_len n.bytes (n.pkt p).data_ ≤ (n.pkt p).len
  even : (n.pkt p).len % 2 ≡ 0
  small : (n.pkt p).len < u32_mod
  fuel : (n.pkt p).len / 2 + 10 < f

body-Ends :
    (f : ℕ) (n : Net) (p : Ptr) (c : Ptr) → Fits f n p → Ends (ocksum16 f n.bytes c (body_len n p))
body-Ends f n p c h =
    let b : body_len n p ≡ (n.pkt p).len - hdr_len n.bytes (n.pkt p).data_ =
      omega (arith, h.within, h.small) in
    ocksum16-Ends f n.bytes c (body_len n p) (omega (arith, h.even)) (omega arith)
      (omega (arith, b, h.fuel))

echo-Ends : (f : ℕ) (n : Net) (p : Ptr) → Fits f n p → Ends (echo f n p)
unfolding echo
echo-Ends f n p h =
    let a = (n.pkt p).data_ in
    let c = a + hdr_len n.bytes a in
    let n1 = record n { bytes = make_echo_reply n.bytes c } in
    let same = reply_first_byte n.bytes a c (omega (arith, h.ihl)) in
    let fits : Fits f n1 p = record {
      ihl = omega (arith, same, h.ihl);
      within = omega (arith, same, h.within);
      even = h.even;
      small = h.small;
      fuel = h.fuel;
    } in
    Ends-bind _ (ocksum16 f n1.bytes c (body_len n1 p)) (body-Ends f n1 p c fits)
      λ sum. Ends-map _ _ (output-Ends f _ p _ (omega (arith, h.fuel)))

icmp_accept-Ends : (f : ℕ) (n : Net) (p : Ptr) (sum : ℕ) → Fits f n p → Ends (icmp_accept f n p sum)
unfolding icmp_accept
icmp_accept-Ends f n p sum h =
    let a = (n.pkt p).data_ in
    let c = a + hdr_len n.bytes a in
    let n1 = record n { bytes = icmp_to_host n.bytes c } in
    let same = first_byte n.bytes a c (omega (arith, h.ihl)) in
    let fits : Fits f n1 p = record {
      ihl = omega (arith, same, h.ihl);
      within = omega (arith, same, h.within);
      even = h.even;
      small = h.small;
      fuel = h.fuel;
    } in
    Ends-if (not (sum == 0xffff)) _ _ (λ _. tt)
      λ _. Ends-if (n1.bytes c == 8) _ _ (λ _. Ends-map _ _ (echo-Ends f n1 p fits)) (λ _. tt)

icmp_input-Ends : (f : ℕ) (n : Net) (p : Ptr) → Fits f n p → Ends (icmp_input f n p)
unfolding icmp_input
icmp_input-Ends f n p h =
    Ends-bind _ (ocksum16 f n.bytes _ (body_len n p)) (body-Ends f n p _ h)
      λ sum. icmp_accept-Ends f n p sum h

dispatch-Ends : (f : ℕ) (n : Net) (p : Ptr) (proto : ℕ) → Fits f n p → Ends (dispatch f n p proto)
unfolding dispatch
dispatch-Ends f n p proto h =
    Ends-if (proto == 1) _ _ (λ _. Ends-map _ _ (icmp_input-Ends f n p h)) (λ _. tt)

trim_bytes : (n : Net) (p : Ptr) → (trim n p).bytes ≡ n.bytes
unfolding trim
trim_bytes n p = ground arith

trim-le : (n : Net) (p : Ptr) → ((trim n p).pkt p).len ≤ (n.pkt p).len
unfolding trim write
trim-le n p = ground arith

trim-data : (n : Net) (p : Ptr) → ((trim n p).pkt p).data_ ≡ (n.pkt p).data_
unfolding trim write
trim-data n p = ground arith

both_pass :
    (ihl len total : ℕ) → (ltb ihl 5 || not (len == total)) ≡ false → (5 ≤ ihl) × (len ≡ total)
both_pass ihl len total h = ground arith

-- The length in the header, a whole number of words, covers the header; and the fuel is enough.
pub record IsEven (f : ℕ) (n : Net) (p : Ptr) : Type 0 where
  pub even : ntohs (get16 n.bytes ((n.pkt p).data_ + 2)) % 2 ≡ 0
  pub covers : hdr_len n.bytes (n.pkt p).data_ ≤ ntohs (get16 n.bytes ((n.pkt p).data_ + 2))
  pub small : (n.pkt p).len < u32_mod
  pub fuel : (n.pkt p).len / 2 + 10 < f

accept-Ends : (f : ℕ) (n : Net) (p : Ptr) (sum : ℕ) → IsEven f n p → Ends (accept f n p sum)
unfolding accept
accept-Ends f n p sum h =
    let a = (n.pkt p).data_ in
    let n0 = record n { bytes = to_host n.bytes a } in
    let n1 = trim n0 p in
    let first : n1.bytes a ≡ n.bytes a =
      ap (λ (m : Bytes). m a) (trim_bytes n0 p) ∙ to_host-first n.bytes a in
    let len : get16 n1.bytes (a + 2) ≡ ntohs (get16 n.bytes (a + 2)) =
      ap (λ (m : Bytes). get16 m (a + 2)) (trim_bytes n0 p) ∙ to_host-ntohs n.bytes a in
    let there : n1.bytes (n1.pkt p).data_ ≡ n.bytes a = ap n1.bytes (trim-data n0 p) ∙ first in
    Ends-if (not (sum == 0xffff)) _ _ (λ _. tt)
      λ _.
        Ends-if (ltb (n1.bytes a % 16) 5 || not (get16 n1.bytes (a + 2) == (n1.pkt p).len)) _ _
          (λ _. tt)
          λ pass.
            let (ihl, whole) =
              both_pass (n1.bytes a % 16) (get16 n1.bytes (a + 2)) (n1.pkt p).len pass in
            dispatch-Ends f n1 p (n1.bytes (a + 9)) (record {
              ihl = omega (arith, there, first, ihl);
              within = omega (arith, there, whole, len, h.covers);
              even = omega (arith, whole, len, h.even);
              small = omega (arith, trim-le n0 p, h.small);
              fuel = omega (arith, trim-le n0 p, h.fuel);
            })

-- `en_ip_input` returns on every packet whose header gives an even length that covers the header,
-- right or wrong as the packet may be otherwise: half its length and ten rounds are enough for each
-- loop of a checksum on the way, the reply to an echo request included.
pub input-Ends : (f : ℕ) (n : Net) (p : Ptr) → IsEven f n p → Ends (input f n p)
unfolding input
input-Ends f n p h =
    let a = (n.pkt p).data_ in
    Ends-if (ltb (n.pkt p).len (hdr_len n.bytes a)) _ _ (λ _. tt)
      λ inside.
        Ends-bind _ (ocksum16 f n.bytes a (hdr_len n.bytes a))
          (ocksum16-Ends f n.bytes a (hdr_len n.bytes a) (omega arith) (omega arith)
            (omega (arith, h.fuel, ltb→le (n.pkt p).len (hdr_len n.bytes a) inside)))
          λ sum. accept-Ends f n p sum h
