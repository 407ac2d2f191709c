-- ===== src/Wire/Laws.antt =====
-- Loads after stores, and the conversions between the byte orders.
use ertos.Base.{one_less, add_sub}
use ertos.CString.Copy.{memcpy-copied}
use ertos.CString.{memcpy}
use ertos.Base.{◌⊎◌, ◌≤◌}
use ertos.Base.{◌==◌, ap, refl}
use ertos.Base.{
  ℕ, zero, suc, ◌+◌, ◌-◌, ◌%◌, ◌≡◌, ◌≢◌, ◌<◌, Ptr, List, [], ◌∷◌, arith, write, if◌then◌else◌,
  length, get_or,
}
use ertos.CString.{Bytes}
use ertos.CString.Copy.{in_block}
use ertos.Wire.{get16, put16, put_bytes, ntohs, ntohl}

pub get16-put16 : (m : Bytes) (a : Ptr) (v : ℕ) → v < 65536 → get16 (put16 m a v) a ≡ v
unfolding put16
get16-put16 m a v h = ground arith

pub put16_elsewhere : (m : Bytes) (a : Ptr) (v b : ℕ) → b ≢ a → b ≢ a + 1 → put16 m a v b ≡ m b
unfolding put16
put16_elsewhere m a v b n1 n2 = ground arith

-- A conversion undoes itself.
pub ntohs-ntohs : (x : ℕ) → x < 65536 → ntohs (ntohs x) ≡ x
ntohs-ntohs x h = omega arith

pub ntohl-ntohl : (x : ℕ) → x < 4294967296 → ntohl (ntohl x) ≡ x
ntohl-ntohl x h = omega arith

sub_sub : (a p : ℕ) → a - p - 1 ≡ a - (p + 1)
sub_sub a p = omega arith

get_or-cons :
    (b : ℕ) (bs : List ℕ) (i : ℕ)
    → get_or (b ∷ bs) i 0 ≡ (if i == 0 then b else get_or bs (i - 1) 0)
get_or-cons b bs zero = refl
get_or-cons b bs (suc i) = ground (arith, ap (λ (j : ℕ). get_or bs j 0) (one_less i))

-- The bytes of the list stand at `p`, and the rest of the memory is unchanged.
pub put_bytes_lem :
    (m : Bytes) (p : Ptr) (bs : List ℕ) (a : ℕ)
    → put_bytes m p bs a ≡ (if in_block p (length bs) a then get_or bs (a - p) 0 % 256 else m a)
unfolding put_bytes write
put_bytes_lem m p [] a = ground arith
put_bytes_lem m p (b ∷ bs) a = ground (
  arith,
  put_bytes_lem (write m p (b % 256)) (p + 1) bs a,
  get_or-cons b bs (a - p),
  ap (λ (i : ℕ). get_or bs i 0) (sub_sub a p),
)

pub put_bytes_out :
    (m : Bytes) (p : Ptr) (bs : List ℕ) (a : ℕ)
    → (a < p) ⊎ (p + length bs ≤ a)
    → put_bytes m p bs a ≡ m a
put_bytes_out m p bs a h = ground (arith, put_bytes_lem m p bs a)

pub put_bytes_in :
    (m : Bytes) (p : Ptr) (bs : List ℕ) (i : ℕ)
    → i < length bs
    → put_bytes m p bs (p + i) ≡ get_or bs i 0 % 256
put_bytes_in m p bs i h =
    ground (arith, put_bytes_lem m p bs (p + i), ap (λ (j : ℕ). get_or bs j 0) (add_sub p i))

pub memcpy_out :
    (m : Bytes) (dest src : Ptr) (n a : ℕ)
    → src + n ≤ dest
    → (a < dest) ⊎ (dest + n ≤ a)
    → memcpy m dest src n a ≡ m a
memcpy_out m dest src n a h o = ground (arith, memcpy-copied m dest src n a)

pub memcpy_in :
    (m : Bytes) (dest src : Ptr) (n i : ℕ)
    → src + n ≤ dest
    → i < n
    → memcpy m dest src n (dest + i) ≡ m (src + i)
memcpy_in m dest src n i h l =
    ground
      (arith, memcpy-copied m dest src n (dest + i), ap (λ (j : ℕ). m (src + j)) (add_sub dest i))
