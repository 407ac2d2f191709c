-- ===== src/Ip/Rejects.antt =====
-- What becomes of a packet that `en_ip_input` refuses.
use ertos.Ip.{hdr_len, to_host, icmp_input}
use ertos.Cksum.{ocksum16}
use ertos.Base.{◌+◌, Bool-cases, inl, inr}
use mathlib.Core.Option
use ertos.Base.{ℕ, ◌≡◌, ◌≢◌, refl, Ptr, Option, none, some, arith, ltb}
use ertos.Base.Int.{ℤ, ok, err}
use ertos.Net.{Net}
use ertos.Ip.{trim, dispatch, accept, input}

map-ok :
    (o : Option (ℤ × Net)) (r : ℤ × Net) → Option.map (λ (rc, n'). (ok, n')) o ≡ some r → r.0 ≡ ok
map-ok none r e = cc
map-ok (some x) r e = cc

dispatch-ok :
    (f : ℕ) (n : Net) (p : Ptr) (proto : ℕ) (r : ℤ × Net) → dispatch f n p proto ≡ some r → r.0 ≡ ok
unfolding dispatch
dispatch-ok f n p proto r e = ground (arith, map-ok (icmp_input f n p) r)

trim-mem : (n : Net) (p : Ptr) → (trim n p).mem ≡ n.mem
unfolding trim
trim-mem n p = ground arith

accept-mem :
    (f : ℕ) (n : Net) (p : Ptr) (sum : ℕ) (r : ℤ × Net)
    → accept f n p sum ≡ some r
    → r.0 ≢ ok
    → (r.0 ≡ err) × (r.1.mem ≡ n.mem)
unfolding accept
accept-mem f n p sum r e bad =
    let a = (n.pkt p).data_ in
    let n0 = record n { bytes = to_host n.bytes a } in
    let n1 = trim n0 p in ground (arith, trim-mem n0 p, dispatch-ok f n1 p (n1.bytes (a + 9)) r)

bind-some {ℓ κ} :
    {A : Type ℓ} {B : Type κ} (o : Option A) (g : A → Option B) (r : B)
    → Option.bind o g ≡ some r
    → (x : A) × (o ≡ some x) × (g x ≡ some r)
unfolding Option.bind
bind-some none g r e = cc
bind-some (some x) g r e = (x, refl, e)

-- A packet that `en_ip_input` answers with an error, whichever of its checks failed, is not freed:
-- the allocator is as it was.
pub input_refused :
    (f : ℕ) (n : Net) (p : Ptr) (r : ℤ × Net)
    → input f n p ≡ some r
    → r.0 ≢ ok
    → (r.0 ≡ err) × (r.1.mem ≡ n.mem)
unfolding input
input_refused f n p r e bad =
    let a = (n.pkt p).data_ in
    elim (Bool-cases (ltb (n.pkt p).len (hdr_len n.bytes a))) [
      | inl short ↦ let eq = rw short at e in ground arith
      | inr long ↦
          let eq = rw long at e in
          let (sum, found, next) =
            bind-some (ocksum16 f n.bytes a (hdr_len n.bytes a)) (λ s. accept f n p s) r eq in
          accept-mem f n p sum r next bad
    ]
