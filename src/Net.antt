-- ===== src/Net.antt =====
-- The state of the network code: interfaces, packets, the ARP cache and the routes, with the
-- allocator and the bytes of memory under them.
use ertos.Base.{ℕ, Bool, Ptr, Store, write, List}
use ertos.CString.{Bytes}
use ertos.Mem.{Mem}
use ertos.Route.{Route}

-- `struct en_net_pkt`; the queue that its link is in is a list of the interface.
pub record Pkt : Type 0 where
  pub data_ : Ptr
  pub len : ℕ
  pub allocated : ℕ
  pub eth_if : Ptr

-- `struct ip_addr`, in an `ip_desc`.
pub record IpAddr : Type 0 where
  pub addr : ℕ
  pub netmask : ℕ
  pub broadcast : ℕ

-- `struct en_eth_if`, the fields that the network code reads and writes. `addr` is the first 6
-- bytes of the MAC address, `bound` is true unless the device is unbound. A list that the source
-- enters and leaves at its head is the sequence of its nodes.
pub record EthIf : Type 0 where
  pub addr : List ℕ
  pub bound : Bool
  pub rx_queue : List Ptr
  pub tx_queue : List Ptr
  pub ip_addrs : List IpAddr

-- `struct en_arp_entry`
pub record ArpEntry : Type 0 where
  pub hrd_addr : List ℕ
  pub proto_addr : ℕ
  pub created : ℕ

pub record Net : Type 0 where
  pub mem : Mem
  pub bytes : Bytes
  pub pkt : Store Pkt
  pub eth : Store EthIf
  pub eth_if_list : List Ptr
  pub arp_cache_list : List ArpEntry
  pub en_ip_route_list : List Route
  pub clkticks : ℕ

-- The packet at `p` replaced.
abbrev pub put_pkt : Net → Ptr → Pkt → Net
put_pkt n p x = record n { pkt = write n.pkt p x }

-- The interface at `d` replaced.
abbrev pub put_eth : Net → Ptr → EthIf → Net
put_eth n d x = record n { eth = write n.eth d x }
