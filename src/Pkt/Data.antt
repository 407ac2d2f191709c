-- ===== src/Pkt/Data.antt =====
-- A packet stands for a string of bytes: what `pkt_add_head`, `pkt_add_tail` and `pkt_del_head` do
-- to it.
use ertos.Base.{add_sub}
use ertos.Pkt.{pop_head}
use ertos.Base.{le→ltb, lt→ltb}
use ertos.Pkt.Grow.{Apart, block, reserve-Grown}
use ertos.Pkt.{grow, reserve, add_head, add_tail, del_head}
use ertos.Base.Int.{ok, err}
use ertos.Base.{◌≢◌, ◌≤◌, null, drop}
use ertos.CString.{Bytes}
use ertos.Base.Int.{ℤ}
use ertos.Base.{
  ℕ, zero, suc, ◌+◌, ◌-◌, ◌%◌, ◌≡◌, ◌<◌, ◌∙◌, ap, refl, Ptr, List, [], ◌∷◌, ◌++◌, arith, write,
  length, length-append, get_or, get_or-append, All, ltb, if◌then◌else◌, u32_mod,
}
use ertos.CString.{memmove}
use ertos.CString.Copy.{memmove-copied}
use ertos.Wire.{put_bytes}
use ertos.Wire.Laws.{put_bytes_lem}
use ertos.Net.{Net}
use ertos.Pkt.{push_head, push_tail}
use ertos.Pkt.Grow.{Grown}

-- The packet at `p` holds the bytes `bs`.
pub record Holds (n : Net) (p : Ptr) (bs : List ℕ) : Type 0 where
  pub len_is : (n.pkt p).len ≡ length bs
  pub at : (i : ℕ) → i < length bs → n.bytes ((n.pkt p).data_ + i) ≡ get_or bs i 0

-- Every element of the list is a byte.
abbrev pub AreBytes : List ℕ → Type 0
AreBytes bs = All (λ b. b < 256) bs

get_or-lt : (bs : List ℕ) (i : ℕ) → AreBytes bs → get_or bs i 0 % 256 ≡ get_or bs i 0
get_or-lt [] i h = refl
get_or-lt (b ∷ bs) zero h = omega (arith, h.0)
get_or-lt (b ∷ bs) (suc i) h = get_or-lt bs i h.1

add_sub_add : (d i k : ℕ) → d + i - (d + k) ≡ i - k
add_sub_add d i k = omega arith

-- A packet is replaced by one that holds the new bytes.
Grown-Holds :
    {n : Net} {p : Ptr} {len : ℕ} {r : ℤ × Net} (bs : List ℕ)
    → Grown n p len r
    → Holds n p bs
    → Holds r.1 p bs
Grown-Holds bs g h = record {
  len_is = g.len_is ∙ h.len_is;
  at = λ i lt. g.same i (omega (arith, lt, h.len_is)) ∙ h.at i lt;
}

head_byte :
    (m : Bytes) (d : Ptr) (buf : List ℕ) (k i : ℕ)
    → i < length buf + k
    → put_bytes (memmove m (d + length buf) d k) d buf (d + i)
      ≡ (if ltb i (length buf) then get_or buf i 0 % 256 else m (d + (i - length buf)))
head_byte m d buf k i h = ground (
  arith,
  put_bytes_lem (memmove m (d + length buf) d k) d buf (d + i),
  memmove-copied m (d + length buf) d k (d + i),
  ap (λ (j : ℕ). get_or buf j 0) (add_sub d i),
  ap (λ (j : ℕ). m (d + j)) (add_sub_add d i (length buf)),
)

tail_byte :
    (m : Bytes) (d : Ptr) (buf : List ℕ) (k i : ℕ)
    → i < k + length buf
    → put_bytes m (d + k) buf (d + i) ≡ (if ltb i k then m (d + i) else get_or buf (i - k) 0 % 256)
tail_byte m d buf k i h =
    ground (
      arith,
      put_bytes_lem m (d + k) buf (d + i),
      ap (λ (j : ℕ). get_or buf j 0) (add_sub_add d i k),
    )

push_head-Holds :
    (n : Net) (p : Ptr) (buf bs : List ℕ)
    → AreBytes buf
    → length buf + length bs < u32_mod
    → Holds n p bs
    → Holds (push_head n p buf) p (buf ++ bs)
unfolding push_head write
push_head-Holds n p buf bs bytes small h = record {
  len_is = ground (arith, h.len_is, length-append buf bs);
  at = λ i lt. ground (
    arith,
    head_byte n.bytes (n.pkt p).data_ buf (n.pkt p).len i,
    get_or-append buf bs i,
    get_or-lt buf i bytes,
    h.at (i - length buf),
    h.len_is,
    length-append buf bs,
  );
}

push_tail-Holds :
    (n : Net) (p : Ptr) (buf bs : List ℕ)
    → AreBytes buf
    → length buf + length bs < u32_mod
    → Holds n p bs
    → Holds (push_tail n p buf) p (bs ++ buf)
unfolding push_tail write
push_tail-Holds n p buf bs bytes small h = record {
  len_is = ground (arith, h.len_is, length-append bs buf);
  at = λ i lt. ground (
    arith,
    tail_byte n.bytes (n.pkt p).data_ buf (n.pkt p).len i,
    get_or-append bs buf i,
    get_or-lt buf (i - length bs) bytes,
    h.at i,
    h.len_is,
    ap (λ (k : ℕ). get_or buf (i - k) 0) h.len_is,
    length-append bs buf,
  );
}

-- `malloc` has a block for `more` bytes more than the packet's buffer, apart from the data.
pub record HasRoom (n : Net) (p : Ptr) (more : ℕ) : Type 0 where
  pub some_more : 0 < more
  pub small : (n.pkt p).allocated + more + 4 ≤ u32_mod
  pub within : (n.pkt p).len ≤ (n.pkt p).allocated
  pub given : block n ((n.pkt p).allocated + more) ≢ null
  pub apart :
      Apart (block n ((n.pkt p).allocated + more)) (n.pkt p).len (n.pkt p).data_ (n.pkt p).len

more_room :
    (n : Net) (p : Ptr) (more : ℕ)
    → HasRoom n p more
    → Grown n p ((n.pkt p).allocated + more) (reserve n p (((n.pkt p).allocated + more) % u32_mod))
more_room n p more r =
    let whole : ((n.pkt p).allocated + more) % u32_mod ≡ (n.pkt p).allocated + more =
      omega (arith, r.small) in
    rw whole (
      reserve-Grown n p ((n.pkt p).allocated + more) (omega (arith, r.some_more)) r.small r.given
        r.apart)

push_head-allocated :
    (n : Net) (p : Ptr) (buf : List ℕ) → ((push_head n p buf).pkt p).allocated ≡ (n.pkt p).allocated
unfolding push_head write
push_head-allocated n p buf = ground arith

-- `pkt_add_head` with a block for the larger buffer succeeds: the packet holds the new bytes in
-- front of its old ones. The buffer grows by at least as many bytes, whether it had room or not.
pub add_head-Holds :
    (n : Net) (p : Ptr) (buf bs : List ℕ)
    → AreBytes buf
    → HasRoom n p (length buf)
    → Holds n p bs
    → let (rc, n') = add_head n p buf in
      (rc ≡ ok) × Holds n' p (buf ++ bs) × ((n.pkt p).allocated + length buf ≤ (n'.pkt p).allocated)
unfolding add_head
add_head-Holds n p buf bs bytes r h =
    let g = more_room n p (length buf) r in
    let small : length buf + length bs < u32_mod = omega (arith, r.small, r.within, h.len_is) in
    let n1 = (reserve n p (((n.pkt p).allocated + length buf) % u32_mod)).1 in
    let pushed = push_head-Holds n1 p buf bs bytes small (Grown-Holds bs g h) in
    rw g.rc (refl, pushed, omega (arith, g.room, push_head-allocated n1 p buf))

-- `pkt_add_tail`, likewise: the packet holds the new bytes behind its old ones.
pub add_tail-Holds :
    (n : Net) (p : Ptr) (buf bs : List ℕ)
    → AreBytes buf
    → HasRoom n p (length buf)
    → Holds n p bs
    → let (rc, n') = add_tail n p buf in (rc ≡ ok) × Holds n' p (bs ++ buf)
unfolding add_tail
add_tail-Holds n p buf bs bytes r h =
    let g = more_room n p (length buf) r in
    let small : length buf + length bs < u32_mod = omega (arith, r.small, r.within, h.len_is) in
    let n1 = (reserve n p (((n.pkt p).allocated + length buf) % u32_mod)).1 in
    let pushed = push_tail-Holds n1 p buf bs bytes small (Grown-Holds bs g h) in
    rw g.rc (refl, pushed)

suc_add : (k i : ℕ) → suc (k + i) ≡ suc k + i
suc_add k i = omega arith

get_or-drop : (k : ℕ) (bs : List ℕ) (i : ℕ) → get_or (drop k bs) i 0 ≡ get_or bs (k + i) 0
get_or-drop zero bs i = ap (λ (j : ℕ). get_or bs j 0) (omega arith)
get_or-drop (suc k) [] i = refl
get_or-drop (suc k) (b ∷ bs) i =
    get_or-drop k bs i ∙ ground (arith, ap (λ (j : ℕ). get_or (b ∷ bs) j 0) (suc_add k i))

length-drop : (k : ℕ) (bs : List ℕ) → length (drop k bs) ≡ length bs - k
length-drop zero bs = omega arith
length-drop (suc k) [] = omega arith
length-drop (suc k) (b ∷ bs) = omega (arith, length-drop k bs)

over : (d k i : ℕ) → d + k + (d + i - d) ≡ d + (k + i)
over d k i = omega arith

drop_byte :
    (m : Bytes) (d : Ptr) (k rest i : ℕ)
    → i < rest
    → memmove m d (d + k) rest (d + i) ≡ m (d + (k + i))
drop_byte m d k rest i h =
    ground (arith, memmove-copied m d (d + k) rest (d + i), ap m (over d k i))

pop_head-Holds :
    (n : Net) (p : Ptr) (k : ℕ) (bs : List ℕ)
    → k ≤ length bs
    → Holds n p bs
    → Holds (pop_head n p k) p (drop k bs)
unfolding pop_head write
pop_head-Holds n p k bs le h = record {
  len_is = ground (arith, h.len_is, length-drop k bs);
  at = λ i lt. ground (
    arith,
    drop_byte n.bytes (n.pkt p).data_ k ((n.pkt p).len - k) i,
    length-drop k bs,
    h.len_is,
    get_or-drop k bs i,
    h.at (k + i),
  );
}

-- `pkt_del_head` drops the first bytes of the packet; if it has fewer, it refuses and changes
-- nothing.
pub del_head-Holds :
    (n : Net) (p : Ptr) (k : ℕ) (bs : List ℕ)
    → Holds n p bs
    → let (rc, n') = del_head n p k in
      (k ≤ length bs → (rc ≡ ok) × Holds n' p (drop k bs)) × (length bs < k → (rc ≡ err) × (n' ≡ n))
unfolding del_head
del_head-Holds n p k bs h = (
  λ le.
      rw (le→ltb (n.pkt p).len k (omega (arith, le, h.len_is)))
        (refl, pop_head-Holds n p k bs le h),
  λ lt. rw (lt→ltb (n.pkt p).len k (omega (arith, lt, h.len_is))) (refl, refl),
)

drop-append : (xs ys : List ℕ) → drop (length xs) (xs ++ ys) ≡ ys
drop-append [] ys = refl
drop-append (x ∷ xs) ys = drop-append xs ys

-- What `pkt_add_head` puts in front of a packet, `pkt_del_head` of as many bytes takes away.
pub del_head-add_head :
    (n : Net) (p : Ptr) (buf bs : List ℕ)
    → AreBytes buf
    → HasRoom n p (length buf)
    → Holds n p bs
    → let (rc, n') = del_head (add_head n p buf).1 p (length buf) in (rc ≡ ok) × Holds n' p bs
del_head-add_head n p buf bs bytes r h =
    let (rc, held, room) = add_head-Holds n p buf bs bytes r h in
    let (rc', held') =
      (del_head-Holds (add_head n p buf).1 p (length buf) (buf ++ bs) held).0
        (omega (arith, length-append buf bs)) in
    (rc', rw (drop-append buf bs) at held')

-- If `pkt_add_head`, `pkt_add_tail` or `pkt_grow` fails, every packet and every byte is as before.
pub adds_fail :
    (n : Net) (p : Ptr) (buf : List ℕ) (len : ℕ)
    → let (rc1, n1) = add_head n p buf in
      let (rc2, n2) = add_tail n p buf in
      let (rc3, n3) = grow n p len in
      (rc1 ≢ ok → (n1.pkt ≡ n.pkt) × (n1.bytes ≡ n.bytes))
      × (rc2 ≢ ok → (n2.pkt ≡ n.pkt) × (n2.bytes ≡ n.bytes))
      × (rc3 ≢ ok → (n3.pkt ≡ n.pkt) × (n3.bytes ≡ n.bytes))
unfolding add_head add_tail reserve grow
adds_fail n p buf len = ground arith
