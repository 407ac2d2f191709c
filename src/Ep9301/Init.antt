-- ===== src/Ep9301/Init.antt =====
-- ep9301_eth_init: the buffers, the queues, the interface, its address and its route, and the task.
use ertos.Base.{ne→==, ap}
use ertos.Base.{◌≢◌}
use ertos.Base.{
  ℕ, ◌+◌, ◌*◌, ◌≡◌, ◌<◌, arith, Ptr, null, true, false, Store, List, ◌∷◌, ◌==◌, if◌then◌else◌,
}
use ertos.Mem
use ertos.Mem.{Mem}
use ertos.Net.{Net, IpAddr, put_eth}
use ertos.Eth
use ertos.Route
use ertos.Route.{Route}
use ertos.Proc.{system}
use ertos.Spawn
use ertos.Spawn.{World}
use ertos.Ep9301.{Nic, TxDesc, rx_buf_size, rx_desc_num}
use ertos.Ep9301.Transmit.{AreDescribed}

-- 192.168.0.99 and 192.168.0.0
abbrev pub own_addr : ℕ
own_addr = 0xC0A80063

abbrev pub own_net : ℕ
own_net = 0xC0A80000

-- `sizeof(struct ip_desc)` and `sizeof(struct en_ip_route)`
abbrev pub ip_desc_size : ℕ
ip_desc_size = 20

abbrev pub route_size : ℕ
route_size = 28

-- The descriptors after both loops.
abbrev pub described : Nic → (rx_buf tx_buf : Ptr) → Nic
described c rx_buf tx_buf = record c {
  tx_desc = λ i. record {
    tx_buf_adr = tx_buf + rx_buf_size * i;
    buffer_length = 0;
    buffer_index = i;
    eof = false;
  };
  rx_desc = λ i. record {
    rx_buf_adr = rx_buf + rx_buf_size * i;
    buffer_length = rx_buf_size;
    buffer_index = i;
  };
}

-- The interface: registered, with the MAC address `ind_ad`, and bound.
unfoldable pub bound : Net → (dev : Ptr) → (ind_ad : List ℕ) → Net
bound n dev ind_ad =
    let n1 = (Eth.register_if n dev).1 in
    put_eth n1 dev (record (n1.eth dev) { addr = ind_ad; bound = true })

-- The address and the route, each if there is memory for it, and then the task.
unfoldable pub addressed : World → Nic → (task : Ptr) → (name : List ℕ) → World × Nic
addressed w c task name =
    let (ipd, m1) = Mem.malloc w.mem ip_desc_size in
    let e = c.net.eth c.dev in
    let ip : IpAddr = record { addr = own_addr; netmask = 0; broadcast = 0 } in
    let n1 = put_eth c.net c.dev (record e { ip_addrs = ip ∷ e.ip_addrs }) in
    let (rt, m2) = Mem.malloc m1 route_size in
    let new : Route = record {
      dst = own_net;
      netmask = 0xFFFFFF00;
      gw = 0;
      flags = 1;
      metric = 1;
      eth_if = c.dev;
    } in
    let n2 = record n1 { en_ip_route_list = (Route.add n1.en_ip_route_list new).1 } in
    let w1 = (Spawn.spawn (record w { mem = m2 }) task name system).1 in
    if ipd == null
    then (record w { mem = m1 }, record c { net = record c.net { mem = m1 } })
    else if rt == null
    then (record w { mem = m2 }, record c { net = record n1 { mem = m2 } })
    else (w1, record c { net = record n2 { mem = w1.mem } })

-- `ep9301_eth_init`; the allocator is that of `w`.
unfoldable pub init : World → Nic → (ind_ad : List ℕ) → (task : Ptr) → (name : List ℕ) → World × Nic
init w c ind_ad task name =
    let (rx_buf, m1) = Mem.smalloc w.mem (rx_desc_num * rx_buf_size) in
    let (tx_buf, m2) = Mem.smalloc m1 (rx_desc_num * rx_buf_size) in
    let c1 = described c rx_buf tx_buf in
    let c2 = record c1 { net = bound c1.net c1.dev ind_ad } in
    if rx_buf == null
    then (record w { mem = m1 }, record c { net = record c.net { mem = m1 } })
    else if tx_buf == null
    then (record w { mem = m2 }, record c { net = record c.net { mem = m2 } })
    else addressed (record w { mem = m2 }) c2 task name

addressed_desc :
    (w : World) (c : Nic) (task : Ptr) (name : List ℕ)
    → let c' = (addressed w c task name).1 in (c'.tx_desc ≡ c.tx_desc) × (c'.next ≡ c.next)
unfolding addressed
addressed_desc w c task name = (ground arith, ground arith)

-- Once both blocks of buffers are there, the descriptors have their buffers one behind the other in
-- the second block, whatever else fails.
init-AreDescribed :
    (w : World) (c : Nic) (ind_ad : List ℕ) (task : Ptr) (name : List ℕ)
    → let (rx_buf, m1) = Mem.smalloc w.mem (64 * 1520) in
      let (tx_buf, m2) = Mem.smalloc m1 (64 * 1520) in
      rx_buf ≢ null
      → tx_buf ≢ null
      → c.next < 64
      → AreDescribed tx_buf (init w c ind_ad task name).1
unfolding init
init-AreDescribed w c ind_ad task name r t h =
    let (rx_buf, m1) = Mem.smalloc w.mem (64 * 1520) in
    let (tx_buf, m2) = Mem.smalloc m1 (64 * 1520) in
    let c1 = described c rx_buf tx_buf in
    let c2 = record c1 { net = bound c1.net c1.dev ind_ad } in
    let (descs, next) = addressed_desc (record w { mem = m2 }) c2 task name in
    rw (ne→== rx_buf null r, ne→== tx_buf null t)
      (record {
        bufs = λ i lt. ap (λ (f : Store TxDesc). (f i).tx_buf_adr) descs;
        next_in = omega (arith, next, h);
      })
