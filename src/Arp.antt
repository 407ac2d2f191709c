-- ===== src/Arp.antt =====
-- The ARP cache and its messages: net/dll/arp.c. Offsets into a message are those of the packed
-- `struct en_arp_pkt`, whose data starts at byte 8.
pub mod Cache
pub mod Reply
pub mod Guards
mod Tests
use ertos.Base.{
  ℕ, ◌+◌, ◌-◌, ◌*◌, ◌%◌, Bool, true, false, not, ◌||◌, Ptr, null, write, List, [], ◌∷◌, Option,
  none, some, replicate, ltb, ◌==◌, if◌then◌else◌, u32_mod,
}
use ertos.Base.Int.{ℤ, pos, negsuc, ok, err, err2}
use ertos.CString.{Bytes, memset, memcpy}
use ertos.Mem
use ertos.Wire.{get16, put16, get32, bytes32, put_bytes, get_bytes, ntohs, ntohl}
use ertos.Net.{Net, EthIf, IpAddr, ArpEntry, put_pkt}
use ertos.Pkt
use ertos.Eth
use ertos.Eth.{eth_type_arp, eth_type_ipv4}

abbrev pub arp_op_request : ℕ
arp_op_request = 1

abbrev pub arp_op_reply : ℕ
arp_op_reply = 2

abbrev pub arp_hrd_ethernet : ℕ
arp_hrd_ethernet = 1

-- `sizeof(struct en_arp_entry)`: the link, a MAC address of 48 bytes, an IP address of three words,
-- and the time.
abbrev pub entry_size : ℕ
entry_size = 8 + 48 + 12 + 4

-- `ar_hlen` and `ar_plen` of the message at `a`.
abbrev pub ar_hlen : Bytes → Ptr → ℕ
ar_hlen m a = m (a + 4)

abbrev pub ar_plen : Bytes → Ptr → ℕ
ar_plen m a = m (a + 5)

-- `arp->data` at the offset of each address.
abbrev pub src_hrd : Bytes → Ptr → Ptr
src_hrd m a = a + 8

abbrev pub src_proto : Bytes → Ptr → Ptr
src_proto m a = a + 8 + ar_hlen m a

abbrev pub dst_hrd : Bytes → Ptr → Ptr
dst_hrd m a = a + 8 + (ar_hlen m a + ar_plen m a)

abbrev pub dst_proto : Bytes → Ptr → Ptr
dst_proto m a = a + 8 + (ar_hlen m a * 2 + ar_plen m a)

-- `en_arp_cache_lookup`
unfoldable pub cache_lookup : List ArpEntry → (addr : ℕ) → Option ArpEntry
cache_lookup [] addr = none
cache_lookup (e ∷ es) addr = if e.proto_addr == addr then some e else cache_lookup es addr

-- `en_arp_cache_add`
unfoldable pub cache_add : Net → ArpEntry → Net
cache_add n e = record n { arp_cache_list = record e { created = n.clkticks } ∷ n.arp_cache_list }

-- The first IP address of an interface; of an empty list it is read through NULL.
unfoldable pub first_addr : Bytes → List IpAddr → ℕ
first_addr m [] = get32 m 8
first_addr m (i ∷ is) = i.addr

-- The message that `en_arp_request` writes at `a`.
unfoldable pub make_request : Bytes → (a : Ptr) → (mac : List ℕ) → (own addr : ℕ) → Bytes
make_request m a mac own addr =
    let m1 = put16 (put16 m a (ntohs arp_hrd_ethernet)) (a + 2) (ntohs eth_type_ipv4) in
    let m2 = write (write m1 (a + 4) 6) (a + 5) 4 in
    let m3 = put16 m2 (a + 6) (ntohs arp_op_request) in
    let m4 = memset m3 (dst_hrd m3 a) 0xFF 6 in
    let m5 = put_bytes m4 (src_hrd m4 a) mac in
    let m6 = put_bytes m5 (dst_proto m5 a) (bytes32 (ntohl addr)) in
    put_bytes m6 (src_proto m6 a) (bytes32 (ntohl own))

-- `arpsz` and the size of the Ethernet header.
abbrev pub arp_size : ℕ
arp_size = 9 - 1 + 6 * 4 + 4 * 2

abbrev pub mac_hdr_size : ℕ
mac_hdr_size = 14

-- `en_arp_request`
unfoldable pub request : Net → (d : Ptr) → (addr : ℕ) → ℤ × Net
request n d addr =
    let (p, n1) = Pkt.alloc n (arp_size + mac_hdr_size) in
    let x = n1.pkt p in
    let own = first_addr n1.bytes (n1.eth d).ip_addrs in
    let m = make_request n1.bytes x.data_ (n1.eth d).addr own addr in
    let n2 = put_pkt (record n1 { bytes = m }) p (record x { len = arp_size }) in
    if p == null then (err, n1) else (ok, Eth.output n2 d p (replicate 6 0xFF) eth_type_arp)

-- The loop over the interfaces: the first one that has the address.
unfoldable pub owner : Net → List Ptr → (addr : ℕ) → Option Ptr
owner n [] addr = none
owner n (d ∷ ds) addr = elim (Eth.ip_lookup (n.eth d).ip_addrs addr) [
  | some i ↦ some d
  | none ↦ owner n ds addr
]

-- `addr`, unpacked from the message.
abbrev pub requested : Bytes → Ptr → ℕ
requested m a =
    let ap = dst_proto m a in m ap * 16777216 + m (ap + 1) * 65536 + m (ap + 2) * 256 + m (ap + 3)

-- The fields `ar_hrd`, `ar_proto` and `ar_opcode` in the other byte order.
unfoldable pub convert : Bytes → Ptr → Bytes
convert m a =
    let m1 = put16 m a (ntohs (get16 m a)) in
    let m2 = put16 m1 (a + 2) (ntohs (get16 m1 (a + 2))) in
    put16 m2 (a + 6) (ntohs (get16 m2 (a + 6)))

-- The sender's addresses copied to the target's.
unfoldable pub to_sender : Bytes → Ptr → Bytes
to_sender m a =
    let m1 = memcpy m (dst_hrd m a) (src_hrd m a) (ar_hlen m a) in
    memcpy m1 (dst_proto m1 a) (src_proto m1 a) (ar_plen m1 a)

-- The sender's addresses replaced by `mac` and `addr`.
unfoldable pub from_us : Bytes → Ptr → (mac : List ℕ) → (addr : ℕ) → Bytes
from_us m a mac addr =
    let m1 = put_bytes m (src_hrd m a) mac in put_bytes m1 (src_proto m1 a) (bytes32 (ntohl addr))

-- The request at `a` made into a reply for the address `mac`, in network byte order.
unfoldable pub make_reply : Bytes → (a : Ptr) → (mac : List ℕ) → Bytes
make_reply m a mac =
    convert (from_us (to_sender (put16 m (a + 6) arp_op_reply) a) a mac (requested m a)) a

-- What `en_arp_input_request` does once the owner of the address is known.
unfoldable pub answer : Net → Ptr → Option Ptr → Net
answer n p none = Pkt.free n p
answer n p (some d) =
    let a = (n.pkt p).data_ in
    let m = make_reply n.bytes a (n.eth d).addr in
    let mac = get_bytes m (dst_hrd m a) (ar_hlen m a) in
    Eth.output (record n { bytes = m }) (n.pkt p).eth_if p mac eth_type_arp

-- `en_arp_input_request`
unfoldable pub input_request : Net → Ptr → ℤ × Net
input_request n p = (ok, answer n p (owner n n.eth_if_list (requested n.bytes (n.pkt p).data_)))

-- The entry that a reply at `a` tells of.
abbrev pub told : Bytes → Ptr → ArpEntry
told m a = record {
  hrd_addr = get_bytes m (src_hrd m a) 6;
  proto_addr = ntohl (get32 m (src_proto m a));
  created = 0;
}

-- `en_arp_input_reply`, up to `pkt_free`, with the result of the lookup.
unfoldable pub learn : Net → ArpEntry → Option ArpEntry → ℤ × Net
learn n e (some old) = (ok, n)
learn n e none =
    let (q, m) = Mem.malloc n.mem entry_size in
    if q == null then (err, record n { mem = m }) else (ok, cache_add (record n { mem = m }) e)

-- `en_arp_input_reply`
unfoldable pub input_reply : Net → Ptr → ℤ × Net
input_reply n p =
    let e = told n.bytes (n.pkt p).data_ in
    let (rc, n1) = learn n e (cache_lookup n.arp_cache_list e.proto_addr) in (rc, Pkt.free n1 p)

-- The guards of `en_arp_input`, in their order; 0 lets the message pass.
unfoldable pub validate : Bytes → (a : Ptr) → (len : ℕ) → ℤ
validate m a len =
    if ltb len (9 - 1 + ar_hlen m a * 2 + ar_plen m a * 2)
    then err
    else if not (get16 m a == arp_hrd_ethernet)
    then err2
    else if not (get16 m (a + 2) == eth_type_ipv4)
    then err2
    else if not (ar_hlen m a == 6) || not (ar_plen m a == 4)
    then err
    else ok

-- The switch of `en_arp_input`.
unfoldable pub dispatch : Net → Ptr → (opcode : ℕ) → Net
dispatch n p opcode =
    if opcode == arp_op_request
    then (input_request n p).1
    else if opcode == arp_op_reply
    then (input_reply n p).1
    else Pkt.free n p

-- `en_arp_input`
unfoldable pub input : Net → Ptr → ℤ × Net
input n p =
    let a = (n.pkt p).data_ in
    let n1 = record n { bytes = convert n.bytes a } in
    let rc = validate n1.bytes a (n.pkt p).len in
    elim rc [ pos c ↦ (ok, dispatch n1 p (get16 n1.bytes (a + 6))) | negsuc c ↦ (negsuc c, n1) ]
