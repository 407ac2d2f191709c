-- ===== src/Ep9301.antt =====
-- The driver of the Ethernet controller: arch/eth.c, over the interfaces of Eth and the packets of
-- Pkt. The two queues of descriptors and the two of statuses are arrays of 64; a pointer into one
-- is an index. What the controller writes (the statuses, and how far it is) is given; of its
-- registers, the counts given back to it are kept. The reset of the chip and its PHY is not
-- modelled.
pub mod Receive
pub mod Stuck
pub mod Transmit
pub mod Init
mod Tests
use ertos.Base.{
  ℕ, zero, suc, ◌+◌, ◌*◌, ◌%◌, Bool, true, false, Ptr, null, Store, write, List, [], ◌∷◌, Option,
  none, some, ltb, ◌==◌, ◌&&◌, if◌then◌else◌, u32_mod,
}
use ertos.Base.Int.{ℤ, ok, err}
use ertos.CString.{memcpy, bytes}
use ertos.Mem
use ertos.Net.{Net, IpAddr, put_pkt, put_eth}
use ertos.Pkt
use ertos.Eth
use ertos.Route
use ertos.Route.{Route}
use ertos.Proc.{system}
use ertos.Spawn
use ertos.Spawn.{World}

abbrev pub rx_buf_size : ℕ
rx_buf_size = 1520

-- `RX_DESC_NUM`, and the length of all four queues.
abbrev pub rx_desc_num : ℕ
rx_desc_num = 64

-- `struct rx_desc`
pub record RxDesc : Type 0 where
  pub rx_buf_adr : Ptr
  pub buffer_length : ℕ
  pub buffer_index : ℕ

-- `struct rx_sts`
pub record RxSts : Type 0 where
  pub frame_length : ℕ
  pub buffer_index : ℕ

-- `struct tx_desc`
pub record TxDesc : Type 0 where
  pub tx_buf_adr : Ptr
  pub buffer_length : ℕ
  pub buffer_index : ℕ
  pub eof : Bool

-- `struct en_eth_stats`
pub record Stats : Type 0 where
  pub rx_bytes : ℕ
  pub tx_bytes : ℕ
  pub rx_frames : ℕ
  pub tx_frames : ℕ
  pub runts : ℕ
  pub oversized : ℕ

-- The statics of the file, the interface's counters, and the network under it. `dev` is the address
-- of `eth_if`; `next`, `rx_last` and `tx_last` are the statics of the functions; `rx_given` and
-- `tx_given` sum up what was written to RXDEnq and TXDEnq.
pub record Nic : Type 0 where
  pub net : Net
  pub dev : Ptr
  pub stats : Stats
  pub rx_desc : Store RxDesc
  pub rx_sts : Store RxSts
  pub tx_desc : Store TxDesc
  pub next : ℕ
  pub rx_last : ℕ
  pub tx_last : ℕ
  pub rx_given : ℕ
  pub tx_given : ℕ

-- `if (++i >= &queue[RX_DESC_NUM]) i = queue`
abbrev pub step : ℕ → ℕ
step i = if ltb (i + 1) rx_desc_num then i + 1 else 0

abbrev pub add32 : ℕ → ℕ → ℕ
add32 x y = (x + y) % u32_mod

-- The counters that every frame adds to.
abbrev pub counted : Nic → ℕ → Nic
counted c len = record c {
  stats = record c.stats {
    rx_frames = add32 c.stats.rx_frames 1;
    rx_bytes = add32 c.stats.rx_bytes len;
  };
}

-- The packet for a frame that was received, if there is memory for one.
unfoldable pub receive : Nic → RxSts → Nic
receive c s =
    let (p, n1) = Pkt.alloc c.net s.frame_length in
    let d = (n1.pkt p).data_ in
    let src = (c.rx_desc s.buffer_index).rx_buf_adr in
    let n2 = record n1 { bytes = memcpy n1.bytes d src s.frame_length } in
    let n3 = put_pkt n2 p (record (n2.pkt p) { len = s.frame_length }) in
    if p == null then record c { net = n1 } else record c { net = Eth.rx n3 c.dev p }

-- The body of the loop of `process_rx_queue`; `continue` leaves out the step to the next status.
unfoldable pub rx_body : Nic → Nic
unfolding receive
rx_body c =
    let s = c.rx_sts c.rx_last in
    let c1 = counted c s.frame_length in
    if ltb s.frame_length 60
    then record c1 { stats = record c1.stats { runts = add32 c1.stats.runts 1 } }
    else if ltb 1518 s.frame_length
    then record c1 { stats = record c1.stats { oversized = add32 c1.stats.oversized 1 } }
    else record (receive c1 s) { rx_last = step c.rx_last }

-- The loop of `process_rx_queue` with `left` rounds to go, and the number of rounds; `cur` is what
-- the controller has got to.
unfoldable pub rx_loop : (left : ℕ) → (cur : ℕ) → Nic → ℕ × Nic
rx_loop zero cur c = (0, c)
rx_loop (suc left) cur c =
    let c1 = rx_body c in
    let (q, c2) = rx_loop left cur c1 in if c1.rx_last == cur then (1, c1) else (q + 1, c2)

-- `process_rx_queue`
unfoldable pub process_rx_queue : (cur : ℕ) → Nic → Nic
process_rx_queue cur c =
    let (q, c1) = rx_loop rx_desc_num cur c in record c1 { rx_given = c1.rx_given + q }

-- The loop of `process_tx_queue`: it prints the frames that were not sent, and goes on.
unfoldable pub tx_loop : (left : ℕ) → (cur : ℕ) → ℕ → ℕ
tx_loop zero cur last = last
tx_loop (suc left) cur last = elim (step last == cur) [
  | true ↦ step last
  | false ↦ tx_loop left cur (step last)
]

-- `process_tx_queue`
unfoldable pub process_tx_queue : (cur : ℕ) → Nic → Nic
process_tx_queue cur c = record c { tx_last = tx_loop rx_desc_num cur c.tx_last }

-- `eth_isr`, with the two bits of the interrupt status.
pub eth_isr : (rx_sq tx_sq : Bool) → (rx_cur tx_cur : ℕ) → Nic → Nic
eth_isr rx_sq tx_sq rx_cur tx_cur c =
    let c1 = if rx_sq then process_rx_queue rx_cur c else c in
    if tx_sq then process_tx_queue tx_cur c1 else c1

-- `ep9301_xmit`
unfoldable pub xmit : Nic → (p : Ptr) → ℤ × Nic
xmit c p =
    let x = c.net.pkt p in
    let d = c.tx_desc c.next in
    let copied = record c.net { bytes = memcpy c.net.bytes d.tx_buf_adr x.data_ x.len } in
    if ltb 1518 x.len then (err, c) else (
      ok,
      record c {
        net = Pkt.free copied p;
        tx_desc = write c.tx_desc c.next (record d { eof = true; buffer_length = x.len });
        stats = record c.stats {
          tx_frames = add32 c.stats.tx_frames 1;
          tx_bytes = add32 c.stats.tx_bytes x.len;
        };
        next = step c.next;
        tx_given = c.tx_given + 1;
      },
    )
