-- ===== src/CString/Overrun.antt =====
-- `strncpy`: what it writes, and that it writes one byte too many for a short source.
use ertos.Base.{◌≤◌}
use ertos.CString.{strncpy}
use ertos.Base.{◌∙◌}
use ertos.CString.{strncpy_loop}
use ertos.Base.{◌<◌, ◌≢◌, ◌⊎◌, ◌-◌, ap}
use ertos.Base.{ℕ, zero, suc, ◌+◌, ◌≡◌, Ptr, arith, write, if◌then◌else◌}
use ertos.CString.{Bytes, pad}
use ertos.CString.Copy.{in_block}

pad_lem :
    (m : Bytes) (dest : Ptr) (n a : ℕ) → pad m dest n a ≡ (if in_block dest n a then 0 else m a)
unfolding pad write
pad_lem m dest zero a = ground arith
pad_lem m dest (suc n) a = ground (arith, pad_lem (write m dest 0) (dest + 1) n a)

-- A string of `k` bytes before its terminator at `src`.
pub record IsString (m : Bytes) (src : Ptr) (k : ℕ) : Type 0 where
  pub ends : m (src + k) ≡ 0
  pub before : (i : ℕ) → i < k → m (src + i) ≢ 0

-- The source string, and after it zeros up to and including `dest + n`.
abbrev pub padded : Bytes → (dest src : Ptr) → (k n : ℕ) → Ptr → ℕ
padded m dest src k n a =
    if in_block dest k a then m (src + (a - dest)) else if in_block dest (n + 1) a then 0 else m a

IsString-step :
    (m : Bytes) (dest src : Ptr) (k v : ℕ)
    → (dest < src) ⊎ (src + suc k < dest)
    → IsString m src (suc k)
    → IsString (write m dest v) (src + 1) k
unfolding write
IsString-step m dest src k v apart s = record {
  ends = let at : src + 1 + k ≡ src + suc k = omega arith in ground (arith, s.ends, ap₁ at);
  before =
      λ i h. let at : src + 1 + i ≡ src + suc i = omega arith in ground (arith, s.before (suc i));
}
  where
    ap₁ : {x y : ℕ} → x ≡ y → m x ≡ m y
    ap₁ e = ap m e

strncpy_loop-padded :
    (k n : ℕ) (m : Bytes) (dest src a : Ptr)
    → k < n
    → IsString m src k
    → (dest + n < src) ⊎ (src + k < dest)
    → strncpy_loop m dest src n a ≡ padded m dest src k n a
unfolding strncpy_loop write
strncpy_loop-padded k zero m dest src a h s apart = absurd (omega arith)
strncpy_loop-padded zero (suc n) m dest src a h s apart =
    let end : m src ≡ 0 = ap m (omega arith) ∙ s.ends in
    ground (arith, pad_lem (write m dest (m src)) (dest + 1) (suc n) a)
strncpy_loop-padded (suc k) (suc n) m dest src a h s apart =
    let more : m src ≢ 0 = λ e. s.before 0 (omega arith) (ap m (omega arith) ∙ e) in
    let m' = write m dest (m src) in
    let s' = IsString-step m dest src k (m src) (first_apart apart) s in
    ground
      (arith, strncpy_loop-padded k n m' (dest + 1) (src + 1) a (omega arith) s' (rest_apart apart))
  where
    first_apart : (dest + suc n < src) ⊎ (src + suc k < dest) → (dest < src) ⊎ (src + suc k < dest)
    first_apart p = omega arith

    rest_apart :
        (dest + suc n < src) ⊎ (src + suc k < dest)
        → (dest + 1 + n < src + 1) ⊎ (src + 1 + k < dest + 1)
    rest_apart p = omega arith

-- From a source string shorter than `n`, apart from the destination, `strncpy` copies the string
-- and then writes zeros up to and including the byte `n` behind the start of the destination:
-- `n + 1` bytes in all, one more than its bound. No other byte changes.
pub strncpy_short :
    (m : Bytes) (dest src : Ptr) (k n a : ℕ)
    → k < n
    → IsString m src k
    → (dest + n < src) ⊎ (src + k < dest)
    → (strncpy m dest src n a ≡ padded m dest src k n a) × (strncpy m dest src n (dest + n) ≡ 0)
unfolding strncpy
strncpy_short m dest src k n a h s apart = (
  strncpy_loop-padded k n m dest src a h s apart,
  strncpy_loop-padded k n m dest src (dest + n) h s apart ∙ ground arith,
)

full-step :
    (m : Bytes) (dest src : Ptr) (n v : ℕ)
    → (dest < src + 1) ⊎ (src + suc n ≤ dest)
    → ((i : ℕ) → i < suc n → m (src + i) ≢ 0)
    → (i : ℕ) → i < n
    → write m dest v (src + 1 + i) ≢ 0
unfolding write
full-step m dest src n v apart full i h =
    let at : src + 1 + i ≡ src + suc i = omega arith in ground (arith, full (suc i), ap m at)

strncpy_loop_full :
    (n : ℕ) (m : Bytes) (dest src a : Ptr)
    → ((i : ℕ) → i < n → m (src + i) ≢ 0)
    → (dest + n ≤ src) ⊎ (src + n ≤ dest)
    → strncpy_loop m dest src n a ≡ (if in_block dest n a then m (src + (a - dest)) else m a)
unfolding strncpy_loop write
strncpy_loop_full zero m dest src a full apart = ground arith
strncpy_loop_full (suc n) m dest src a full apart =
    let more : m src ≢ 0 = λ e. full 0 (omega arith) (ap m (omega arith) ∙ e) in
    let m' = write m dest (m src) in
    let full' = full-step m dest src n (m src) (near apart) full in
    ground (arith, strncpy_loop_full n m' (dest + 1) (src + 1) a full' (rest apart))
  where
    near : (dest + suc n ≤ src) ⊎ (src + suc n ≤ dest) → (dest < src + 1) ⊎ (src + suc n ≤ dest)
    near p = omega arith

    rest :
        (dest + suc n ≤ src) ⊎ (src + suc n ≤ dest)
        → (dest + 1 + n ≤ src + 1) ⊎ (src + 1 + n ≤ dest + 1)
    rest p = omega arith

-- From a source with no terminator in its first `n` bytes, apart from the destination, `strncpy`
-- copies exactly `n` bytes.
pub strncpy_long :
    (n : ℕ) (m : Bytes) (dest src a : Ptr)
    → ((i : ℕ) → i < n → m (src + i) ≢ 0)
    → (dest + n ≤ src) ⊎ (src + n ≤ dest)
    → strncpy m dest src n a ≡ (if in_block dest n a then m (src + (a - dest)) else m a)
unfolding strncpy
strncpy_long n m dest src a full apart = strncpy_loop_full n m dest src a full apart
