-- ===== src/Arp/Guards.antt =====
-- What `en_arp_input` lets pass, and what becomes of the rest.
use ertos.Base.{◌⊎◌, inl, inr}
use ertos.Base.{ℕ, ◌+◌, ◌≡◌, ◌≢◌, ◌≤◌, refl, Ptr, arith}
use ertos.Base.Int.{ok, err, err2}
use ertos.CString.{Bytes}
use ertos.Wire.{get16}
use ertos.Net.{Net}
use ertos.Arp.{convert, validate, input, dispatch, ar_hlen, ar_plen, dst_proto, arp_hrd_ethernet}
use ertos.Eth.{eth_type_ipv4}

-- A message that the handlers may work on: an Ethernet and IP message that lies within its packet,
-- to the last byte of its last address.
pub record Passed (m : Bytes) (a : Ptr) (len : ℕ) : Type 0 where
  pub hrd : get16 m a ≡ arp_hrd_ethernet
  pub proto : get16 m (a + 2) ≡ eth_type_ipv4
  pub hlen : ar_hlen m a ≡ 6
  pub plen : ar_plen m a ≡ 4
  pub within : dst_proto m a + 4 ≤ a + len

validate-Passed : (m : Bytes) (a : Ptr) (len : ℕ) → validate m a len ≡ ok → Passed m a len
unfolding validate
validate-Passed m a len h = record {
  hrd = ground arith;
  proto = ground arith;
  hlen = ground arith;
  plen = ground arith;
  within = ground arith;
}

validate-cases :
    (m : Bytes) (a : Ptr) (len : ℕ)
    → (validate m a len ≡ ok) ⊎ ((validate m a len ≡ err) ⊎ (validate m a len ≡ err2))
unfolding validate
validate-cases m a len = ground arith

-- `en_arp_input` on every message: if it is refused, the answer is -1 or -2 and the packet is not
-- freed, nor is anything else but for the three fields that were converted in place. If it is
-- accepted, it is an Ethernet and IP message that lies within the packet, and it is dispatched by
-- its opcode.
pub input_lem :
    (n : Net) (p : Ptr)
    → let a = (n.pkt p).data_ in
      let m = convert n.bytes a in
      let n1 = record n { bytes = m } in
      let (rc, n') = input n p in
      (rc ≢ ok → ((rc ≡ err) ⊎ (rc ≡ err2)) × (n' ≡ n1))
      × (rc ≡ ok → Passed m a (n.pkt p).len × (n' ≡ dispatch n1 p (get16 m (a + 6))))
unfolding input
input_lem n p =
    let a = (n.pkt p).data_ in
    let m = convert n.bytes a in
    elim (validate-cases m a (n.pkt p).len) [
      | inl good ↦
          rw (good, input)
            (λ bad. absurd (bad refl), λ _. (validate-Passed m a (n.pkt p).len good, refl))
      | inr (inl bad) ↦ rw (bad, input) (λ _. (inl refl, refl), λ e. cc)
      | inr (inr bad) ↦ rw (bad, input) (λ _. (inr refl, refl), λ e. cc)
    ]
