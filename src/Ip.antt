-- ===== src/Ip.antt =====
-- IP, ICMP and UDP messages: net/trans/ip.c, net/trans/icmp.c and net/trans/udp.c. The loop of the
-- checksum takes fuel, and `none` means that it ran out.
pub mod Header
pub mod Hang
pub mod Returns
pub mod Rejects
mod Tests
use mathlib.Core.Option
use ertos.Base.{
  ℕ, ◌+◌, ◌-◌, ◌*◌, ◌/◌, ◌%◌, Bool, true, false, not, ◌&&◌, ◌||◌, Ptr, write, List, [], ◌∷◌, ◌++◌,
  Option, none, some, ltb, ◌==◌, if◌then◌else◌, u32_mod,
}
use ertos.Base.Int.{ℤ, ok, err, is_zero}
use ertos.CString.{Bytes}
use ertos.Wire.{get16, put16, get32, put32, bytes16, bytes32, put_bytes, ntohs, ntohl}
use ertos.Cksum.{ocksum16}
use ertos.Net.{Net, ArpEntry, put_pkt}
use ertos.Pkt
use ertos.Eth
use ertos.Eth.{eth_type_ipv4}
use ertos.Arp
use ertos.Route
use ertos.Route.{Route}

abbrev pub ip_ttl : ℕ
ip_ttl = 64

abbrev pub ip_proto_icmp : ℕ
ip_proto_icmp = 0x01

abbrev pub ip_proto_udp : ℕ
ip_proto_udp = 0x11

-- `sizeof(struct en_ip_hdr)`
abbrev pub ip_hdr_size : ℕ
ip_hdr_size = 20

-- `ip->ihl * 4`; the field is the low half of the first byte.
abbrev pub hdr_len : Bytes → Ptr → ℕ
hdr_len m a = m a % 16 * 4

-- The 20 bytes of the header that `en_ip_output` fills in, with `cksum` as it stands in memory.
abbrev pub header : (len src dst cksum : ℕ) → List ℕ
header len src dst cksum =
    0x45
    ∷ 0
    ∷ (bytes16 (ntohs (len % 65536))
        ++ (0
            ∷ 0
            ∷ 0
            ∷ 0
            ∷ ip_ttl
            ∷ ip_proto_icmp
            ∷ (bytes16 cksum ++ (bytes32 (ntohl src) ++ bytes32 (ntohl dst)))))

-- `ocksum16` of the header, a variable of `en_ip_output`; here it stands at 0 in a memory of its
-- own.
unfoldable pub header_sum : ℕ → List ℕ → Option ℕ
header_sum f hdr = ocksum16 f (put_bytes (λ a. 0) 0 hdr) 0 ip_hdr_size

-- `en_ip_output` once the header is made: an unknown MAC address is asked for, and the packet is
-- left behind.
unfoldable pub send : Net → (d p : Ptr) → (dst : ℕ) → (hdr : List ℕ) → Option ArpEntry → Net
send n d p dst hdr none = (Arp.request n d dst).1
send n d p dst hdr (some e) = Eth.output (Pkt.add_head n p hdr).1 d p e.hrd_addr eth_type_ipv4

-- `en_ip_output` along a route.
unfoldable pub output_on : ℕ → Net → Ptr → (dst : ℕ) → Route → Option Net
output_on f n p dst rt =
    let d = rt.eth_if in
    let src = Arp.first_addr n.bytes (n.eth d).ip_addrs in
    let len = (n.pkt p).len + ip_hdr_size in
    Option.map
      (λ sum.
        send n d p dst (header len src dst (65535 - sum)) (Arp.cache_lookup n.arp_cache_list dst))
      (header_sum f (header len src dst 0))

-- `en_ip_output`
unfoldable pub output : ℕ → Net → Ptr → (dst : ℕ) → Option (ℤ × Net)
output f n p dst = elim (Route.lookup n.en_ip_route_list dst) [
  | none ↦ some (err, n)
  | some rt ↦ Option.map (λ n'. (ok, n')) (output_on f n p dst rt)
]

abbrev pub icmp_type_echo : ℕ
icmp_type_echo = 8

abbrev pub icmp_type_echo_reply : ℕ
icmp_type_echo_reply = 0

-- The bytes of the message behind the IP header, in `size_t`.
abbrev pub body_len : Net → Ptr → ℕ
body_len n p = let x = n.pkt p in (x.len + u32_mod - hdr_len n.bytes x.data_) % u32_mod

-- The fields `cksum`, `id` and `seqnum` at `c` in host byte order.
unfoldable pub icmp_to_host : Bytes → Ptr → Bytes
icmp_to_host m c =
    let m1 = put16 m (c + 2) (ntohs (get16 m (c + 2))) in
    let m2 = put16 m1 (c + 4) (ntohs (get16 m1 (c + 4))) in
    put16 m2 (c + 6) (ntohs (get16 m2 (c + 6)))

-- The message at `c` made into a reply, up to its checksum.
unfoldable pub make_echo_reply : Bytes → Ptr → Bytes
make_echo_reply m c =
    let m1 = write m c icmp_type_echo_reply in
    let m2 = put16 m1 (c + 4) (ntohs (get16 m1 (c + 4))) in
    put16 m2 (c + 6) (ntohs (get16 m2 (c + 6)))

-- The case ICMP_TYPE_ECHO of `en_icmp_input`; the result of `en_ip_output` is dropped.
unfoldable pub echo : ℕ → Net → Ptr → Option Net
echo f n p =
    let a = (n.pkt p).data_ in
    let c = a + hdr_len n.bytes a in
    let dst = get32 n.bytes (a + 12) in
    let n1 = record n { bytes = make_echo_reply n.bytes c } in
    Option.bind (ocksum16 f n1.bytes c (body_len n1 p)) λ sum.
      let n2 = record n1 { bytes = put16 n1.bytes (c + 2) (ntohs sum) } in
      let n3 = (Pkt.del_head n2 p ip_hdr_size).1 in Option.map (λ (rc, n4). n4) (output f n3 p dst)

-- `en_icmp_input` once the checksum is known.
unfoldable pub icmp_accept : ℕ → Net → Ptr → (sum : ℕ) → Option (ℤ × Net)
icmp_accept f n p sum =
    let a = (n.pkt p).data_ in
    let c = a + hdr_len n.bytes a in
    let n1 = record n { bytes = icmp_to_host n.bytes c } in
    if not (sum == 0xffff)
    then some (err, Pkt.free n p)
    else if n1.bytes c == icmp_type_echo
    then Option.map (λ n'. (ok, n')) (echo f n1 p)
    else some (ok, Pkt.free n1 p)

-- `en_icmp_input`
unfoldable pub icmp_input : ℕ → Net → Ptr → Option (ℤ × Net)
icmp_input f n p =
    let a = (n.pkt p).data_ in
    Option.bind (ocksum16 f n.bytes (a + hdr_len n.bytes a) (body_len n p))
      λ sum. icmp_accept f n p sum

-- The fields of the header at `u` in host byte order.
unfoldable pub udp_to_host : Bytes → Ptr → Bytes
udp_to_host m u =
    let m1 = put16 m u (ntohs (get16 m u)) in
    let m2 = put16 m1 (u + 2) (ntohs (get16 m1 (u + 2))) in
    put16 m2 (u + 4) (ntohs (get16 m2 (u + 4)))

-- `en_udp_input`; the comparison with `ip->len` is one of `int`, in which 0 has a place below.
unfoldable pub udp_input : Net → Ptr → ℤ × Net
udp_input n p =
    let a = (n.pkt p).data_ in
    let u = a + hdr_len n.bytes a in
    let n1 = record n { bytes = udp_to_host n.bytes u } in
    let len = get16 n1.bytes (u + 4) in
    let by_ip = len + hdr_len n1.bytes a == get16 n1.bytes (a + 2) in
    if not by_ip && not (len == body_len n1 p) then (err, Pkt.free n1 p) else (ok, Pkt.free n1 p)

-- The header in host byte order. `en_ntohl` of the 16 bits of `cksum` leaves nothing in its low
-- half.
unfoldable pub to_host : Bytes → Ptr → Bytes
to_host m a =
    let m1 = put16 m (a + 2) (ntohs (get16 m (a + 2))) in
    let m2 = put16 m1 (a + 4) (ntohs (get16 m1 (a + 4))) in
    let m3 = put16 m2 (a + 10) (ntohl (get16 m2 (a + 10)) % 65536) in
    let m4 = put32 m3 (a + 12) (ntohl (get32 m3 (a + 12))) in
    put32 m4 (a + 16) (ntohl (get32 m4 (a + 16)))

-- The length of a frame that Ethernet padded is set to that of the IP header.
unfoldable pub trim : Net → Ptr → Net
trim n p =
    let x = n.pkt p in
    let len = get16 n.bytes (x.data_ + 2) in
    if x.len == 46 && ltb len 46 then put_pkt n p (record x { len = len }) else n

-- The switch of `en_ip_input`; what the handlers return is dropped.
unfoldable pub dispatch : ℕ → Net → Ptr → (proto : ℕ) → Option (ℤ × Net)
dispatch f n p proto =
    if proto == ip_proto_icmp
    then Option.map (λ (rc, n'). (ok, n')) (icmp_input f n p)
    else some (ok, (if proto == ip_proto_udp then (udp_input n p).1 else n))

-- `en_ip_input` once the checksum is known.
unfoldable pub accept : ℕ → Net → Ptr → (sum : ℕ) → Option (ℤ × Net)
accept f n p sum =
    let a = (n.pkt p).data_ in
    let n1 = trim (record n { bytes = to_host n.bytes a }) p in
    if not (sum == 0xffff)
    then some (err, n)
    else if ltb (n1.bytes a % 16) 5 || not (get16 n1.bytes (a + 2) == (n1.pkt p).len)
    then some (err, n1)
    else dispatch f n1 p (n1.bytes (a + 9))

-- `en_ip_input`
unfoldable pub input : ℕ → Net → Ptr → Option (ℤ × Net)
input f n p =
    let a = (n.pkt p).data_ in
    if ltb (n.pkt p).len (hdr_len n.bytes a)
    then some (err, n)
    else Option.bind (ocksum16 f n.bytes a (hdr_len n.bytes a)) λ sum. accept f n p sum
