-- ===== src/EthRx/Handlers.antt =====
-- No handler of a received frame touches a receive queue.
use ertos.Base.{ltb, ◌||◌}
use ertos.Wire.{put16, get32, ntohs}
use mathlib.Core.Path.{subst}
use ertos.Net.{EthIf}
use ertos.Base.{Store}
use ertos.Wire.{get16}
use mathlib.Core.Option
use ertos.Base.{
  ℕ, ◌+◌, ◌%◌, ◌≡◌, ◌∙◌, refl, ap, Ptr, Bool, true, false, List, Option, none, some, arith, ◌==◌,
  if◌then◌else◌, not, replicate, write,
}
use ertos.Base.Int.{ℤ, pos, negsuc, ok, err}
use ertos.Net.{Net, ArpEntry}
use ertos.Pkt
use ertos.Eth
use ertos.Arp
use ertos.Ip
use ertos.Route
use ertos.EthRx.{dispatch, input, handle}

-- Every receive queue is the same in both states.
abbrev pub SameRx : Net → Net → Type 0
SameRx n n' = (d : Ptr) → (n'.eth d).rx_queue ≡ (n.eth d).rx_queue

-- The predicate holds of what is returned, if anything is.
abbrev pub When {ℓ} : {A : Type ℓ} → Option A → (A → Type 0) → Type 0
When none P = Unit {0}
When (some x) P = P x

When-map {ℓ κ} :
    {A : Type ℓ} {B : Type κ} (P : B → Type 0) (g : A → B) (o : Option A)
    → When o (λ x. P (g x))
    → When (Option.map g o) P
When-map P g none h = tt
When-map P g (some x) h = h

pub When-bind {ℓ κ} :
    {A : Type ℓ} {B : Type κ} (P : B → Type 0) (Q : A → Type 0) (g : A → Option B) (o : Option A)
    → When o Q
    → ((x : A) → Q x → When (g x) P)
    → When (Option.bind o g) P
unfolding Option.bind
When-bind P Q g none h k = tt
When-bind P Q g (some x) h k = k x h

When-if {ℓ} :
    {A : Type ℓ} (b : Bool) (x y : Option A) (P : A → Type 0)
    → When x P
    → When y P
    → When (if b then x else y) P
When-if true x y P h k = h
When-if false x y P h k = k

-- For every value, if the predicate holds whatever is returned.
When-any {ℓ} : {A : Type ℓ} (o : Option A) (P : A → Type 0) → ((x : A) → P x) → When o P
When-any none P h = tt
When-any (some x) P h = h x

add_head-eth : (n : Net) (p : Ptr) (buf : List ℕ) → (Pkt.add_head n p buf).1.eth ≡ n.eth
unfolding Pkt.add_head Pkt.push_head Pkt.reserve Pkt.grow
add_head-eth n p buf = ground arith

del_head-eth : (n : Net) (p : Ptr) (k : ℕ) → (Pkt.del_head n p k).1.eth ≡ n.eth
unfolding Pkt.del_head Pkt.pop_head
del_head-eth n p k = ground arith

alloc-eth : (n : Net) (base : ℕ) → (Pkt.alloc n base).1.eth ≡ n.eth
unfolding Pkt.alloc
alloc-eth n base = ground arith

free-eth : (n : Net) (p : Ptr) → (Pkt.free n p).eth ≡ n.eth
unfolding Pkt.free
free-eth n p = refl

output-SameRx :
    (n : Net) (d p : Ptr) (dst : List ℕ) (type_ : ℕ) → SameRx n (Eth.output n d p dst type_)
unfolding Eth.output write
output-SameRx n d p dst type_ c =
    let hdr = Eth.mac_hdr dst (n.eth d).addr type_ in
    let same = ap (λ e. (e c).rx_queue) (add_head-eth n p hdr) in ground (arith, same)

either-SameRx :
    (n : Net) (b : Bool) (x y : ℤ × Net) (c : Ptr)
    → (x.1.eth c).rx_queue ≡ (n.eth c).rx_queue
    → (y.1.eth c).rx_queue ≡ (n.eth c).rx_queue
    → ((if b then x else y).1.eth c).rx_queue ≡ (n.eth c).rx_queue
either-SameRx n true x y c h k = h
either-SameRx n false x y c h k = k

request-SameRx : (n : Net) (d : Ptr) (addr : ℕ) → SameRx n (Arp.request n d addr).1
unfolding Arp.request
request-SameRx n d addr c =
    let r = Pkt.alloc n (Arp.arp_size + Arp.mac_hdr_size) in
    let fresh = ap (λ e. (e c).rx_queue) (alloc-eth n (Arp.arp_size + Arp.mac_hdr_size)) in
    either-SameRx n (r.0 == 0) _ _ c fresh
      (output-SameRx _ d r.0 (replicate 6 0xFF) Eth.eth_type_arp c ∙ fresh)

answer-SameRx : (n : Net) (p : Ptr) (o : Option Ptr) → SameRx n (Arp.answer n p o)
unfolding Arp.answer
answer-SameRx n p none c = ap (λ e. (e c).rx_queue) (free-eth n p)
answer-SameRx n p (some d) c =
    output-SameRx (record n { bytes = Arp.make_reply n.bytes (n.pkt p).data_ (n.eth d).addr }) _ _ _
      _ c

learn-SameRx : (n : Net) (e : ArpEntry) (o : Option ArpEntry) → SameRx n (Arp.learn n e o).1
unfolding Arp.learn Arp.cache_add
learn-SameRx n e none c = ground arith
learn-SameRx n e (some old) c = refl

arp_dispatch-SameRx : (n : Net) (p : Ptr) (opcode : ℕ) → SameRx n (Arp.dispatch n p opcode)
unfolding Arp.dispatch Arp.input_request Arp.input_reply Pkt.free
arp_dispatch-SameRx n p opcode c = ground (
  arith,
  answer-SameRx n p (Arp.owner n n.eth_if_list (Arp.requested n.bytes (n.pkt p).data_)) c,
  learn-SameRx n (Arp.told n.bytes (n.pkt p).data_)
      (Arp.cache_lookup n.arp_cache_list (Arp.told n.bytes (n.pkt p).data_).proto_addr) c,
)

arp_input-SameRx : (n : Net) (p : Ptr) → SameRx n (Arp.input n p).1
unfolding Arp.input
arp_input-SameRx n p c =
    let a = (n.pkt p).data_ in
    let n1 = record n { bytes = Arp.convert n.bytes a } in
    let opcode = get16 n1.bytes (a + 6) in
    elim (Arp.validate n1.bytes a (n.pkt p).len)
      as (λ rc.
        ((elim rc as (λ x. ℤ × Net) [
          | pos k ↦ (ok, Arp.dispatch n1 p opcode)
          | negsuc k ↦ (negsuc k, n1)
        ]).1.eth
          c).rx_queue
        ≡ (n.eth c).rx_queue) [ pos k ↦ arp_dispatch-SameRx n1 p opcode c | negsuc k ↦ refl ]

send-SameRx :
    (n : Net) (d p : Ptr) (dst : ℕ) (hdr : List ℕ) (o : Option ArpEntry)
    → SameRx n (Ip.send n d p dst hdr o)
unfolding Ip.send
send-SameRx n d p dst hdr none c = request-SameRx n d dst c
send-SameRx n d p dst hdr (some e) c =
    output-SameRx (Pkt.add_head n p hdr).1 d p e.hrd_addr Eth.eth_type_ipv4 c
    ∙ ap (λ e. (e c).rx_queue) (add_head-eth n p hdr)

ip_output-SameRx :
    (f : ℕ) (n : Net) (p : Ptr) (dst : ℕ) → When (Ip.output f n p dst) (λ r. SameRx n r.1)
unfolding Ip.output Ip.output_on
ip_output-SameRx f n p dst =
    elim (Route.lookup n.en_ip_route_list dst)
      as (λ o.
        When
          (elim o as (λ x. Option (ℤ × Net)) [
            | none ↦ some (err, n)
            | some rt ↦ Option.map (λ n'. (ok, n')) (Ip.output_on f n p dst rt)
          ])
          (λ r. SameRx n r.1)) [
            | none ↦ λ c. refl
            | some rt ↦
                When-map (λ r. SameRx n r.1) (λ n'. (ok, n')) (Ip.output_on f n p dst rt)
                  (When-map (SameRx n) _ (Ip.header_sum f _) (
                    When-any (Ip.header_sum f _) _ (λ sum.
                      send-SameRx n rt.eth_if p dst _ (Arp.cache_lookup n.arp_cache_list dst))))
          ]

-- After steps that leave the interfaces alone.
When-later :
    (n1 n : Net) (o : Option (ℤ × Net))
    → n1.eth ≡ n.eth
    → When o (λ r. SameRx n1 r.1)
    → When o (λ r. SameRx n r.1)
When-later n1 n o e h =
    subst (λ (s : Store EthIf). When o (λ r. (d : Ptr) → (r.1.eth d).rx_queue ≡ (s d).rx_queue)) e h

replied-SameRx :
    (f : ℕ) (n : Net) (p : Ptr) (dst : ℕ)
    → When (Option.map (λ (rc, n'). n') (Ip.output f (Pkt.del_head n p 20).1 p dst)) (SameRx n)
replied-SameRx f n p dst =
    let n3 = (Pkt.del_head n p 20).1 in
    When-map (SameRx n) (λ (rc, n'). n') (Ip.output f n3 p dst)
      (When-later n3 n (Ip.output f n3 p dst) (del_head-eth n p 20) (ip_output-SameRx f n3 p dst))

echo-SameRx : (f : ℕ) (n : Net) (p : Ptr) → When (Ip.echo f n p) (SameRx n)
unfolding Ip.echo
echo-SameRx f n p =
    When-bind (SameRx n) (λ _. Unit {0}) _ _ (When-any _ (λ _. Unit {0}) (λ _. tt))
      λ sum _.
        let a = (n.pkt p).data_ in
        let c = a + Ip.hdr_len n.bytes a in
        let m = put16 (Ip.make_echo_reply n.bytes c) (c + 2) (ntohs sum) in
        replied-SameRx f (record n { bytes = m }) p (get32 n.bytes (a + 12))

icmp_accept-SameRx :
    (f : ℕ) (n : Net) (p : Ptr) (sum : ℕ) → When (Ip.icmp_accept f n p sum) (λ r. SameRx n r.1)
unfolding Ip.icmp_accept Pkt.free
icmp_accept-SameRx f n p sum =
    let c = (n.pkt p).data_ + Ip.hdr_len n.bytes (n.pkt p).data_ in
    let n1 = record n { bytes = Ip.icmp_to_host n.bytes c } in
    let P = λ (r : ℤ × Net). SameRx n r.1 in
    When-if (not (sum == 0xffff)) (some (err, Pkt.free n p)) _ P (λ d. refl)
      (When-if (n1.bytes c == 8) _ (some (ok, Pkt.free n1 p)) P
        (When-map P (λ n'. (ok, n')) (Ip.echo f n1 p) (echo-SameRx f n1 p)) (λ d. refl))

icmp_input-SameRx : (f : ℕ) (n : Net) (p : Ptr) → When (Ip.icmp_input f n p) (λ r. SameRx n r.1)
unfolding Ip.icmp_input
icmp_input-SameRx f n p =
    When-bind (λ (r : ℤ × Net). SameRx n r.1) (λ _. Unit {0}) _ _
      (When-any _ (λ _. Unit {0}) (λ _. tt)) λ sum _. icmp_accept-SameRx f n p sum

udp_input-eth : (n : Net) (p : Ptr) → (Ip.udp_input n p).1.eth ≡ n.eth
unfolding Ip.udp_input Pkt.free
udp_input-eth n p = ground arith

ip_dispatch-SameRx :
    (f : ℕ) (n : Net) (p : Ptr) (proto : ℕ) → When (Ip.dispatch f n p proto) (λ r. SameRx n r.1)
unfolding Ip.dispatch
ip_dispatch-SameRx f n p proto =
    When-if (proto == 1) _ (some (ok, (if proto == 0x11 then (Ip.udp_input n p).1 else n)))
      (λ (r : ℤ × Net). SameRx n r.1)
      (When-map (λ (r : ℤ × Net). SameRx n r.1) _ (Ip.icmp_input f n p) (icmp_input-SameRx f n p))
      (λ d. ground (arith, ap (λ e. (e d).rx_queue) (udp_input-eth n p)))

trim-eth : (n : Net) (p : Ptr) → (Ip.trim n p).eth ≡ n.eth
unfolding Ip.trim
trim-eth n p = ground arith

ip_accept-SameRx :
    (f : ℕ) (n : Net) (p : Ptr) (sum : ℕ) → When (Ip.accept f n p sum) (λ r. SameRx n r.1)
unfolding Ip.accept
ip_accept-SameRx f n p sum =
    let a = (n.pkt p).data_ in
    let n0 = record n { bytes = Ip.to_host n.bytes a } in
    let n1 = Ip.trim n0 p in
    let P = λ (r : ℤ × Net). SameRx n r.1 in
    When-if (not (sum == 0xffff)) (some (err, n)) _ P (λ d. refl)
      (When-if (ltb (n1.bytes a % 16) 5 || not (get16 n1.bytes (a + 2) == (n1.pkt p).len))
        (some (err, n1)) _ P (λ d. ap (λ e. (e d).rx_queue) (trim-eth n0 p))
        (When-later (Ip.trim n0 p) n0 _ (trim-eth n0 p) (ip_dispatch-SameRx f (Ip.trim n0 p) p _)))

ip_input-SameRx : (f : ℕ) (n : Net) (p : Ptr) → When (Ip.input f n p) (λ r. SameRx n r.1)
unfolding Ip.input
ip_input-SameRx f n p =
    let a = (n.pkt p).data_ in
    let P = λ (r : ℤ × Net). SameRx n r.1 in
    When-if (ltb (n.pkt p).len (Ip.hdr_len n.bytes a)) (some (err, n)) _ P (λ d. refl)
      (When-bind P (λ _. Unit {0}) _ _ (When-any _ (λ _. Unit {0}) (λ _. tt))
        λ sum _. ip_accept-SameRx f n p sum)

dispatch-SameRx : (f : ℕ) (n : Net) (p : Ptr) (type_ : ℕ) → When (dispatch f n p type_) (SameRx n)
unfolding dispatch Pkt.free
dispatch-SameRx f n p type_ =
    When-if (type_ == Eth.eth_type_arp) (some (Arp.input n p).1) _ (SameRx n) (arp_input-SameRx n p)
      (When-if (type_ == Eth.eth_type_ipv4) _ (some (Pkt.free n p)) (SameRx n)
        (When-map (SameRx n) (λ (rc, n'). n') (Ip.input f n p) (ip_input-SameRx f n p)) (λ d. refl))

-- Whatever a received frame holds, its handler puts no packet into a receive queue and takes none
-- out, on any interface.
pub handle-SameRx : (f : ℕ) (n : Net) (d p : Ptr) → When (handle f n d p) (SameRx n)
unfolding handle input Pkt.free
handle-SameRx f n d p =
    When-if (n.eth d).bound (input f n p) (some (Pkt.free n p)) (SameRx n)
      (subst
        (λ (s : Store EthIf).
          When (input f n p) (λ n'. (c : Ptr) → (n'.eth c).rx_queue ≡ (s c).rx_queue))
        (del_head-eth n p 14) (dispatch-SameRx f (Pkt.del_head n p 14).1 p _))
      (λ c. refl)
