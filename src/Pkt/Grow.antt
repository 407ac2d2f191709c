-- ===== src/Pkt/Grow.antt =====
-- Growing a packet's buffer keeps what it holds.
use ertos.Base.{ap, ◌∙◌, write_self, lt→ltb}
use ertos.Base.Int.{ℤ}
use ertos.Base.{ℕ, ◌+◌, ◌-◌, ◌%◌, ◌≡◌, ◌≢◌, ◌≤◌, ◌<◌, ◌⊎◌, refl, Ptr, null, arith, u32_mod}
use ertos.Base.Int.{ok}
use ertos.CString.{Bytes, memset, memcpy}
use ertos.CString.Copy.{memcpy-copied, memset_lem}
use ertos.Mem
use ertos.Net.{Net, Pkt, put_pkt}
use ertos.Pkt.{padded, grow, reserve}

-- The packet's data lies within its buffer, which is a whole number of words.
pub record IsPkt (x : Pkt) : Type 0 where
  pub within : x.len ≤ x.allocated
  pub aligned : x.allocated % 4 ≡ 0

-- The `n` bytes from `p` on and the `k` bytes from `q` on have none in common.
abbrev pub Apart : Ptr → ℕ → Ptr → ℕ → Type 0
Apart p n q k = (p + n ≤ q) ⊎ (q + k ≤ p)

-- The block that `malloc` would give for a buffer of `len` bytes.
abbrev pub block : Net → ℕ → Ptr
block n len = (Mem.malloc n.mem (padded len)).0

pub padded_bounds :
    (len : ℕ)
    → len + 4 ≤ u32_mod
    → (len ≤ padded len) × (padded len < len + 4) × (padded len % 4 ≡ 0)
unfolding padded
padded_bounds len h = ground arith

shift : (d q i : ℕ) → d + (q + i - q) ≡ d + i
shift d q i = omega arith

grow_bytes :
    (m : Bytes) (q d : Ptr) (len rest i : ℕ)
    → Apart q len d len
    → i < len
    → memset (memcpy m q d len) (q + len) 0 rest (q + i) ≡ m (d + i)
grow_bytes m q d len rest i a h = ground (
  arith,
  memset_lem (memcpy m q d len) (q + len) 0 rest (q + i),
  memcpy-copied m q d len (q + i),
  ap m (shift d q i),
)

-- What a buffer that has grown to at least `len` bytes keeps.
pub record Grown (n : Net) (p : Ptr) (len : ℕ) (r : ℤ × Net) : Type 0 where
  pub rc : r.0 ≡ ok
  pub len_is : (r.1.pkt p).len ≡ (n.pkt p).len
  pub room : len ≤ (r.1.pkt p).allocated
  pub words : (r.1.pkt p).allocated % 4 ≡ 0
  pub same :
      (i : ℕ)
      → i < (n.pkt p).len
      → r.1.bytes ((r.1.pkt p).data_ + i) ≡ n.bytes ((n.pkt p).data_ + i)

-- The state after a buffer was replaced by one at `q`.
abbrev moved_to : Net → Ptr → Ptr → ℕ → Net
moved_to n p q len =
    let x = n.pkt p in
    let copied = memcpy n.bytes q x.data_ x.len in
    put_pkt
      (record n {
        mem = Mem.free (Mem.malloc n.mem (padded len)).1 x.data_;
        bytes = memset copied (q + x.len) 0 ((padded len + u32_mod - x.len) % u32_mod);
      })
      p (record x { data_ = q; allocated = padded len })

grow_succeeds :
    (n : Net) (p : Ptr) (len : ℕ)
    → (n.pkt p).allocated < len
    → block n len ≢ null
    → grow n p len ≡ (ok, moved_to n p (block n len) len)
unfolding grow
grow_succeeds n p len a given = ground arith

moved_to-Grown :
    (n : Net) (p : Ptr) (len : ℕ)
    → len + 4 ≤ u32_mod
    → Apart (block n len) (n.pkt p).len (n.pkt p).data_ (n.pkt p).len
    → Grown n p len (ok, moved_to n p (block n len) len)
moved_to-Grown n p len small apart =
    let at =
      write_self n.pkt p (record (n.pkt p) { data_ = block n len; allocated = padded len }) in
    let bounds = padded_bounds len small in
    record {
      rc = refl;
      len_is = ap (λ (x : Pkt). x.len) at;
      room = omega (arith, ap (λ (x : Pkt). x.allocated) at, bounds.0);
      words = ap (λ (x : Pkt). x.allocated % 4) at ∙ bounds.2;
      same = λ i lt.
          ap (λ (x : Pkt). (moved_to n p (block n len) len).bytes (x.data_ + i)) at
          ∙ grow_bytes n.bytes (block n len) (n.pkt p).data_ (n.pkt p).len
              ((padded len + u32_mod - (n.pkt p).len) % u32_mod) i apart lt;
    }

-- `pkt_reserve` of more than a packet has: with a block from `malloc` that does not overlap the
-- data, the buffer has the room asked for, and the data is the same.
pub reserve-Grown :
    (n : Net) (p : Ptr) (len : ℕ)
    → (n.pkt p).allocated < len
    → len + 4 ≤ u32_mod
    → block n len ≢ null
    → Apart (block n len) (n.pkt p).len (n.pkt p).data_ (n.pkt p).len
    → Grown n p len (reserve n p len)
unfolding reserve
reserve-Grown n p len a small given apart =
    rw (lt→ltb (n.pkt p).allocated len a, grow_succeeds n p len a given)
      (moved_to-Grown n p len small apart)
