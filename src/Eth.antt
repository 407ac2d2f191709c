-- ===== src/Eth.antt =====
-- Ethernet interfaces: net/dll/eth.c, up to the dispatch of received frames, which is EthRx.
-- `list_add_after` on the head of a queue puts a packet in front, and the tasks take packets from
-- the front.
use ertos.Base.{ℕ, Ptr, List, [], ◌∷◌, ◌++◌, Option, none, some, ◌==◌, if◌then◌else◌}
use ertos.Base.Int.{ℤ, ok}
use ertos.Pkt
use ertos.Wire.{bytes16, ntohs}
use ertos.Net.{Net, IpAddr, put_pkt, put_eth}

abbrev pub eth_type_ipv4 : ℕ
eth_type_ipv4 = 0x0800

abbrev pub eth_type_arp : ℕ
eth_type_arp = 0x0806

-- `struct en_eth_mac_hdr`: the bytes of a header for `dst`.
abbrev pub mac_hdr : (dst src : List ℕ) → (type_ : ℕ) → List ℕ
mac_hdr dst src type_ = dst ++ (src ++ bytes16 (ntohs type_))

-- `en_eth_output`; the result of `pkt_add_head` is dropped.
unfoldable pub output : Net → (d p : Ptr) → (dst : List ℕ) → (type_ : ℕ) → Net
output n d p dst type_ =
    let n1 = (Pkt.add_head n p (mac_hdr dst (n.eth d).addr type_)).1 in
    put_eth n1 d (record (n1.eth d) { tx_queue = p ∷ (n1.eth d).tx_queue })

-- `en_eth_ip_lookup`
unfoldable pub ip_lookup : List IpAddr → (addr : ℕ) → Option IpAddr
ip_lookup [] addr = none
ip_lookup (i ∷ is) addr = if addr == i.addr then some i else ip_lookup is addr

-- `en_eth_register_if`
unfoldable pub register_if : Net → Ptr → ℤ × Net
register_if n d = (
  ok,
  put_eth (record n { eth_if_list = d ∷ n.eth_if_list }) d
      (record (n.eth d) { rx_queue = []; tx_queue = []; ip_addrs = [] }),
)

-- `en_eth_rx`, up to the call that wakes the task.
unfoldable pub rx : Net → (d p : Ptr) → Net
rx n d p =
    let n1 = put_pkt n p (record (n.pkt p) { eth_if = d }) in
    put_eth n1 d (record (n1.eth d) { rx_queue = p ∷ (n1.eth d).rx_queue })

-- A round of `en_eth_tx_task`: one packet of each interface goes to the driver's `xmit`.
module _ (xmit : Net → (p d : Ptr) → Net) where
  unfoldable pub tx_one : Net → (d : Ptr) → List Ptr → Net
  tx_one n d [] = n
  tx_one n d (p ∷ ps) = xmit (put_eth n d (record (n.eth d) { tx_queue = ps })) p d

  unfoldable pub tx_round : Net → List Ptr → Net
  unfolding tx_one
  tx_round n [] = n
  tx_round n (d ∷ ds) = tx_round (tx_one n d (n.eth d).tx_queue) ds
