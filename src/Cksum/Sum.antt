-- ===== src/Cksum/Sum.antt =====
-- What the checksum accepts, when its loop ends, and what a sender has to store.
use ertos.Base.{sym}
use ertos.Wire.Laws.{get16-put16, put16_elsewhere}
use mathlib.Core.Option
use ertos.Wire.{put16}
use ertos.Cksum.{fold, ocksum16}
use ertos.Base.{◌/◌, ◌↔◌, ◌≤◌}
use ertos.Base.{refl}
use ertos.Base.{
  ℕ, zero, suc, ◌+◌, ◌-◌, ◌*◌, ◌%◌, ◌≡◌, ◌<◌, ◌∙◌, ap, Ptr, none, some, arith, u32_mod,
}
use ertos.CString.{Bytes}
use ertos.Wire.{get16}
use ertos.Cksum.{add_words}

-- The sum of the `k` words from `p` on.
abbrev pub total : Bytes → Ptr → ℕ → ℕ
total m p zero = 0
total m p (suc k) = get16 m p + total m (p + 2) k

-- The memory holds bytes.
abbrev pub IsBytes : Bytes → Type 0
IsBytes m = (a : ℕ) → m a < 256

add_words_step :
    (f : ℕ) (m : Bytes) (p : Ptr) (k sum : ℕ)
    → 2 * suc k < u32_mod
    → sum + get16 m p < u32_mod
    → add_words (suc f) m p (2 * suc k) sum ≡ add_words f m (p + 2) (2 * k) (sum + get16 m p)
unfolding add_words
add_words_step f m p k sum h s = ground arith

add_words_done : (f : ℕ) (m : Bytes) (p : Ptr) (sum : ℕ) → add_words (suc f) m p 0 sum ≡ some sum
unfolding add_words
add_words_done f m p sum = refl

add_words-total :
    (k f : ℕ) (m : Bytes) (p : Ptr) (sum : ℕ)
    → k < f
    → 2 * k < u32_mod
    → sum + total m p k < u32_mod
    → add_words f m p (2 * k) sum ≡ some (sum + total m p k)
add_words-total k zero m p sum h l s = elim h [ ]
add_words-total zero (suc f) m p sum h l s = add_words_done f m p sum ∙ ap some (omega arith)
add_words-total (suc k) (suc f) m p sum h l s =
    add_words_step f m p k sum l (omega (arith, s))
    ∙ add_words-total k f m (p + 2) (sum + get16 m p) (omega (arith, h)) (omega (arith, l))
        (omega (arith, s))
    ∙ ap some (omega arith)

-- Of an odd length the loop never ends: `len` goes past 0 and on through the odd numbers.
add_words_odd :
    (f : ℕ) (m : Bytes) (p : Ptr) (len sum : ℕ) → len % 2 ≡ 1 → add_words f m p len sum ≡ none
unfolding add_words
add_words_odd zero m p len sum h = refl
add_words_odd (suc f) m p len sum h =
    ground (
      arith,
      add_words_odd f m (p + 2) ((len + u32_mod - 2) % u32_mod) ((sum + get16 m p) % u32_mod),
    )

-- `ocksum16` of an odd number of bytes never returns: it reads on through all of the memory.
pub ocksum16_odd :
    (f : ℕ) (m : Bytes) (buf : Ptr) (len : ℕ) → len % 2 ≡ 1 → ocksum16 f m buf len ≡ none
unfolding ocksum16
ocksum16_odd f m buf len h = ap (Option.map (λ sum. fold sum)) (add_words_odd f m buf len 0 h)

total-le : (m : Bytes) (p : Ptr) (k : ℕ) → IsBytes m → total m p k ≤ k * 65535
total-le m p zero b = omega arith
total-le m p (suc k) b = omega (arith, total-le m (p + 2) k b, b p, b (p + 1))

-- On a whole number of words the loop ends with the folded sum of the words.
pub ocksum16-total :
    (k f : ℕ) (m : Bytes) (buf : Ptr)
    → IsBytes m
    → k < 65536
    → k < f
    → ocksum16 f m buf (2 * k) ≡ some (fold (total m buf k))
unfolding ocksum16
ocksum16-total k f m buf b small h =
    ap (Option.map (λ sum. fold sum)) (
      add_words-total k f m buf 0 h (omega (arith, small))
        (omega (arith, total-le m buf k b, small)))
    ∙ ap (λ t. some (fold t)) (omega arith)

some_inj : {a b : ℕ} → some a ≡ some b → a ≡ b
some_inj e = cc

fold_all_ones : (t : ℕ) → t ≤ 65535 * 65535 → (fold t ≡ 65535) ↔ ((0 < t) × (t % 65535 ≡ 0))
fold_all_ones t h = (λ e. (omega (arith, e), omega (arith, e)), λ e. omega (arith, e.0, e.1))

-- The check of a receiver: `ocksum16` returns 0xffff exactly for a block whose one's complement sum
-- is 0, that is whose words add up to a positive multiple of 65535.
pub ocksum16-accepts :
    (k f : ℕ) (m : Bytes) (buf : Ptr)
    → IsBytes m
    → k < 65536
    → k < f
    → (ocksum16 f m buf (2 * k) ≡ some 65535) ↔ ((0 < total m buf k) × (total m buf k % 65535 ≡ 0))
ocksum16-accepts k f m buf b small h =
    let e = ocksum16-total k f m buf b small h in
    let iff = fold_all_ones (total m buf k) (omega (arith, total-le m buf k b, small)) in
    (λ q. iff.0 (some_inj (sym e ∙ q)), λ q. e ∙ ap some (iff.1 q))

total_before :
    (k : ℕ) (m : Bytes) (p a : Ptr) (v : ℕ) → a + 1 < p → total (put16 m a v) p k ≡ total m p k
total_before zero m p a v h = refl
total_before (suc k) m p a v h = omega (
  arith,
  put16_elsewhere m a v p (omega (arith, h)) (omega (arith, h)),
  put16_elsewhere m a v (p + 1) (omega (arith, h)) (omega (arith, h)),
  total_before k m (p + 2) a v (omega (arith, h)),
)

total-put16 :
    (k i : ℕ) (m : Bytes) (p a : Ptr) (v : ℕ)
    → a ≡ p + 2 * i
    → i < k
    → v < 65536
    → total (put16 m a v) p k + get16 m a ≡ total m p k + v
total-put16 zero i m p a v e h l = elim h [ ]
total-put16 (suc k) zero m p a v e h l =
    let at : a ≡ p = omega (arith, e) in
    omega (
      arith,
      get16-put16 m a v l,
      ap (put16 m a v) at,
      ap (put16 m a v) (ap (λ x. x + 1) at),
      ap m at,
      ap m (ap (λ x. x + 1) at),
      total_before k m (p + 2) a v (omega (arith, e)),
    )
total-put16 (suc k) (suc i) m p a v e h l = omega (
  arith,
  put16_elsewhere m a v p (omega (arith, e)) (omega (arith, e)),
  put16_elsewhere m a v (p + 1) (omega (arith, e)) (omega (arith, e)),
  total-put16 k i m (p + 2) a v (omega (arith, e)) (omega (arith, h)) l,
)

put16-IsBytes : (m : Bytes) (a : Ptr) (v : ℕ) → IsBytes m → IsBytes (put16 m a v)
unfolding put16
put16-IsBytes m a v b c = ground (arith, b c)

pub complement_all_ones :
    (t : ℕ)
    → t < 65535 * 65536
    → ((0 < t + (65535 - fold t)) × ((t + (65535 - fold t)) % 65535 ≡ 0))
      ↔ (t % 65536 + t / 65536 < 65536)
complement_all_ones t h = (λ e. omega (arith, e.0, e.1), λ l. (omega (arith, l), omega (arith, l)))

-- The check of a sender: where the field of the checksum is 0, its complement stored there is
-- accepted by a receiver exactly if adding the carries to the sum carried no further.
pub ocksum16_sent :
    (k f i : ℕ) (m : Bytes) (buf : Ptr)
    → IsBytes m
    → i < k
    → k < 65536
    → k < f
    → get16 m (buf + 2 * i) ≡ 0
    → let t = total m buf k in
      (ocksum16 f (put16 m (buf + 2 * i) (65535 - fold t)) buf (2 * k) ≡ some 65535)
      ↔ (t % 65536 + t / 65536 < 65536)
ocksum16_sent k f i m buf b h small fuel z =
    let t = total m buf k in
    let m' = put16 m (buf + 2 * i) (65535 - fold t) in
    let sum : total m' buf k ≡ t + (65535 - fold t) =
      omega (arith, total-put16 k i m buf (buf + 2 * i) (65535 - fold t) refl h (omega arith), z) in
    let checks =
      ocksum16-accepts k f m' buf (put16-IsBytes m (buf + 2 * i) (65535 - fold t) b) small fuel in
    let sends = complement_all_ones t (omega (arith, total-le m buf k b, small)) in
    let both = rw sum at checks in (λ q. sends.0 (both.0 q), λ q. both.1 (sends.1 q))
