-- ===== src/Ep9301/Transmit.antt =====
-- Frames on their way out.
use ertos.Base.{◌%◌}
use ertos.Base.{◌≢◌, inl, inr, write_self, write_ne}
use ertos.Base.{ℕ, ◌+◌, ◌*◌, ◌≡◌, ◌⊎◌, ◌≤◌, ◌<◌, ◌∙◌, refl, ap, arith, true, Ptr, write}
use ertos.Base.Int.{ok}
use ertos.CString.{memcpy}
use ertos.CString.Copy.{memcpy_block, memcpy_around}
use ertos.Net.{Net}
use ertos.Pkt
use ertos.Ep9301.{Nic, xmit, step, add32}

-- The descriptors have their buffers one behind the other from `tb` on.
pub record AreDescribed (tb : Ptr) (c : Nic) : Type 0 where
  pub bufs : (i : ℕ) → i < 64 → (c.tx_desc i).tx_buf_adr ≡ tb + 1520 * i
  pub next_in : c.next < 64

-- What `ep9301_xmit` has done with a frame of `len` bytes at `d`.
pub record Queued (tb d len : ℕ) (c c' : Nic) : Type 0 where
  pub frame : (i : ℕ) → i < len → c'.net.bytes (tb + 1520 * c.next + i) ≡ c.net.bytes (d + i)
  pub around :
      (a : Ptr)
      → (a < tb + 1520 * c.next) ⊎ (tb + 1520 * c.next + len ≤ a)
      → c'.net.bytes a ≡ c.net.bytes a
  pub desc : ((c'.tx_desc c.next).buffer_length ≡ len) × ((c'.tx_desc c.next).eof ≡ true)
  pub others : (i : ℕ) → i ≢ c.next → c'.tx_desc i ≡ c.tx_desc i
  pub still : AreDescribed tb c'
  pub given : c'.tx_given ≡ c.tx_given + 1
  pub next : c'.next ≡ (c.next + 1) % 64

-- The state after the frame was accepted.
abbrev sent : Nic → Ptr → Nic
sent c p =
    let x = c.net.pkt p in
    let d = c.tx_desc c.next in
    record c {
      net = Pkt.free (record c.net { bytes = memcpy c.net.bytes d.tx_buf_adr x.data_ x.len }) p;
      tx_desc = write c.tx_desc c.next (record d { eof = true; buffer_length = x.len });
      stats = record c.stats {
        tx_frames = add32 c.stats.tx_frames 1;
        tx_bytes = add32 c.stats.tx_bytes x.len;
      };
      next = step c.next;
      tx_given = c.tx_given + 1;
    }

xmit_fits : (c : Nic) (p : Ptr) → (c.net.pkt p).len ≤ 1518 → xmit c p ≡ (ok, sent c p)
unfolding xmit
xmit_fits c p h = ground (arith, h)

free-bytes : (n : Net) (p : Ptr) → (Pkt.free n p).bytes ≡ n.bytes
unfolding Pkt.free
free-bytes n p = refl

sent-bytes :
    (c : Nic) (p a : Ptr)
    → let x = c.net.pkt p in
      (sent c p).net.bytes a ≡ memcpy c.net.bytes (c.tx_desc c.next).tx_buf_adr x.data_ x.len a
sent-bytes c p a = ap (λ f. f a) (free-bytes _ p)

clear_of :
    (tb d len i : ℕ)
    → i < 64
    → len ≤ 1518
    → (d + len ≤ tb) ⊎ (tb + 1520 * 64 ≤ d)
    → (d + len ≤ tb + 1520 * i) ⊎ (tb + 1520 * i + len ≤ d)
clear_of tb d len i lt small (inl h) = inl (omega (arith, h))
clear_of tb d len i lt small (inr h) = inr (omega (arith, h, lt, small))

sent_desc :
    (tb : Ptr) (c : Nic) (p i : ℕ) → ((sent c p).tx_desc i).tx_buf_adr ≡ (c.tx_desc i).tx_buf_adr
unfolding write
sent_desc tb c p i = ground arith

-- A frame of up to 1518 bytes that stands outside the buffers: `ep9301_xmit` copies it to the
-- buffer of the next descriptor and into no other byte, notes its length there, gives one
-- descriptor to the controller, and goes on to the one behind it, or from the last of the 64 to the
-- first. It does so whatever state the descriptor is in.
pub xmit-Queued :
    (tb : Ptr) (c : Nic) (p : Ptr)
    → AreDescribed tb c
    → let x = c.net.pkt p in
      x.len ≤ 1518
      → (x.data_ + x.len ≤ tb) ⊎ (tb + 1520 * 64 ≤ x.data_)
      → ((xmit c p).0 ≡ ok) × Queued tb x.data_ x.len c (xmit c p).1
xmit-Queued tb c p h small apart =
    let x = c.net.pkt p in
    let here = tb + 1520 * c.next in
    let at = h.bufs c.next h.next_in in
    let clear = clear_of tb x.data_ x.len c.next h.next_in small apart in
    rw (xmit_fits c p small) (
      refl,
      record {
        frame = λ i le.
            sent-bytes c p (here + i)
            ∙ ap (λ d. memcpy c.net.bytes d x.data_ x.len (here + i)) at
            ∙ memcpy_block c.net.bytes here x.data_ x.len i clear le;
        around = λ a out.
            sent-bytes c p a
            ∙ ap (λ d. memcpy c.net.bytes d x.data_ x.len a) at
            ∙ memcpy_around c.net.bytes here x.data_ x.len a clear out;
        desc =
            rw
              (write_self c.tx_desc c.next
                (record (c.tx_desc c.next) { eof = true; buffer_length = x.len }))
              (refl, refl);
        others = λ i ne. write_ne c.tx_desc c.next i _ ne;
        still = record {
          bufs = λ i lt. sent_desc tb c p i ∙ h.bufs i lt;
          next_in = ground (arith, h.next_in);
        };
        given = refl;
        next = ground (arith, h.next_in);
      },
    )
