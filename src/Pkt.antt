-- ===== src/Pkt.antt =====
-- Packets with a buffer that grows: net/core/pkt.c over the allocator. A caller's buffer that is
-- copied into a packet is given by its bytes. Sizes are `size_t`.
pub mod Grow
pub mod Data
pub mod Tests
use ertos.Base.{
  ℕ, ◌+◌, ◌-◌, ◌%◌, Bool, true, false, ◌||◌, Ptr, null, List, Option, none, some, length, ltb, ◌==◌,
  if◌then◌else◌, u32_mod,
}
use ertos.Base.Int.{ℤ, ok, err, is_zero}
use ertos.CString.{memset, memcpy, memmove}
use ertos.Mem
use ertos.Wire.{put_bytes}
use ertos.Net.{Net, Pkt, put_pkt}

-- `BUF_PADDING`
abbrev pub buf_padding : ℕ
buf_padding = 4

-- `sizeof(struct en_net_pkt)` on the 32-bit target.
abbrev pub pkt_size : ℕ
pkt_size = 24

-- `if (base % BUF_PADDING) base += BUF_PADDING - (base % BUF_PADDING)`
unfoldable pub padded : ℕ → ℕ
padded base =
    if base % buf_padding == 0 then base else (base + (buf_padding - base % buf_padding)) % u32_mod

-- The packet after `memset(pkt, 0, sizeof(struct en_net_pkt))`.
abbrev pub blank : Pkt
blank = record { data_ = null; len = 0; allocated = 0; eth_if = null }

-- `pkt_alloc`; the pointer is null on an error.
unfoldable pub alloc : Net → (base : ℕ) → Ptr × Net
alloc n base =
    let (p, m1) = Mem.malloc n.mem pkt_size in
    let size = padded base in
    let (d, m2) = Mem.malloc m1 size in
    if p == null
    then (null, record n { mem = m1 })
    else if size == 0
    then (p, put_pkt (record n { mem = m1 }) p blank)
    else if d == null
    then (null, put_pkt (record n { mem = Mem.free m2 p }) p blank)
    else (
      p,
      put_pkt (record n { mem = m2; bytes = memset n.bytes d 0 size }) p
          (record blank { data_ = d; allocated = size }),
    )

-- `pkt_free`
unfoldable pub free : Net → Ptr → Net
free n p =
    let d = (n.pkt p).data_ in
    let m = if d == null then n.mem else Mem.free n.mem d in record n { mem = Mem.free m p }

-- `pkt_grow`
unfoldable pub grow : Net → Ptr → (len : ℕ) → ℤ × Net
grow n p len =
    let x = n.pkt p in
    let size = padded len in
    let (q, m) = Mem.malloc n.mem size in
    let copied = memcpy n.bytes q x.data_ x.len in
    let cleared = memset copied (q + x.len) 0 ((size + u32_mod - x.len) % u32_mod) in
    if len == 0 || ltb len x.allocated
    then (ok, n)
    else if q == null
    then (err, record n { mem = m })
    else (
      ok,
      put_pkt (record n { mem = Mem.free m x.data_; bytes = cleared }) p
          (record x { data_ = q; allocated = size }),
    )

-- `pkt_reserve`
unfoldable pub reserve : Net → Ptr → (len : ℕ) → ℤ × Net
reserve n p len = if ltb (n.pkt p).allocated len then grow n p len else (ok, n)

-- The rest of `pkt_add_head`, once there is room.
unfoldable pub push_head : Net → Ptr → (buf : List ℕ) → Net
push_head n p buf =
    let x = n.pkt p in
    let moved = memmove n.bytes (x.data_ + length buf) x.data_ x.len in
    put_pkt (record n { bytes = put_bytes moved x.data_ buf }) p
      (record x { len = (x.len + length buf) % u32_mod })

-- `pkt_add_head`
unfoldable pub add_head : Net → Ptr → (buf : List ℕ) → ℤ × Net
add_head n p buf =
    let (rc, n') = reserve n p (((n.pkt p).allocated + length buf) % u32_mod) in
    if is_zero rc then (rc, push_head n' p buf) else (rc, n')

-- The rest of `pkt_add_tail`, once there is room.
unfoldable pub push_tail : Net → Ptr → (buf : List ℕ) → Net
push_tail n p buf =
    let x = n.pkt p in
    put_pkt (record n { bytes = put_bytes n.bytes (x.data_ + x.len) buf }) p
      (record x { len = (x.len + length buf) % u32_mod })

-- `pkt_add_tail`
unfoldable pub add_tail : Net → Ptr → (buf : List ℕ) → ℤ × Net
add_tail n p buf =
    let (rc, n') = reserve n p (((n.pkt p).allocated + length buf) % u32_mod) in
    if is_zero rc then (rc, push_tail n' p buf) else (rc, n')

-- A call for a buffer that may be NULL.
unfoldable pub maybe : (Net → Ptr → List ℕ → ℤ × Net) → Net → Ptr → Option (List ℕ) → ℤ × Net
maybe add n p none = (ok, n)
maybe add n p (some buf) = add n p buf

-- `pkt_add`; a buffer that is given has the length that goes with it.
unfoldable pub add :
    Net
    → Ptr
    → (hbuf : Option (List ℕ)) → (hlen : ℕ) → (tbuf : Option (List ℕ)) → (tlen : ℕ) → ℤ × Net
add n p hbuf hlen tbuf tlen =
    let (rc, n1) = reserve n p (((n.pkt p).allocated + hlen + tlen) % u32_mod) in
    let (rc1, n2) = maybe add_head n1 p hbuf in
    if is_zero rc then (if is_zero rc1 then maybe add_tail n2 p tbuf else (rc1, n2)) else (rc, n1)

-- The rest of `pkt_del_head`, of a packet that has the bytes.
unfoldable pub pop_head : Net → Ptr → (len : ℕ) → Net
pop_head n p len =
    let x = n.pkt p in
    put_pkt (record n { bytes = memmove n.bytes x.data_ (x.data_ + len) (x.len - len) }) p
      (record x { len = x.len - len })

-- `pkt_del_head`
unfoldable pub del_head : Net → Ptr → (len : ℕ) → ℤ × Net
del_head n p len = if ltb (n.pkt p).len len then (err, n) else (ok, pop_head n p len)
