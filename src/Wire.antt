-- ===== src/Wire.antt =====
-- Header fields as bytes in memory, as an ARM in little-endian order loads and stores them, and
-- the conversions of net/core/pkt.h between that order and the network's.
pub mod Laws
use ertos.Base.{ℕ, zero, suc, ◌+◌, ◌*◌, ◌/◌, ◌%◌, Ptr, write, List, [], ◌∷◌}
use ertos.CString.{Bytes}

-- A `uint16_t` at `a`, and the assignment to it.
abbrev pub get16 : Bytes → Ptr → ℕ
get16 m a = m a + m (a + 1) * 256

unfoldable pub put16 : Bytes → Ptr → ℕ → Bytes
unfolding write
put16 m a v = write (write m a (v % 256)) (a + 1) (v / 256 % 256)

-- A `uint32_t` at `a`, and the assignment to it.
abbrev pub get32 : Bytes → Ptr → ℕ
get32 m a = get16 m a + get16 m (a + 2) * 65536

unfoldable pub put32 : Bytes → Ptr → ℕ → Bytes
unfolding put16
put32 m a v = put16 (put16 m a v) (a + 2) (v / 65536)

-- The bytes of a `uint16_t` and of a `uint32_t` variable.
abbrev pub bytes16 : ℕ → List ℕ
bytes16 v = (v % 256) ∷ (v / 256 % 256) ∷ []

abbrev pub bytes32 : ℕ → List ℕ
bytes32 v = (v % 256) ∷ (v / 256 % 256) ∷ (v / 65536 % 256) ∷ (v / 16777216 % 256) ∷ []

-- `memcpy` from a variable of the caller, given by its bytes.
unfoldable pub put_bytes : Bytes → Ptr → List ℕ → Bytes
put_bytes m a [] = m
put_bytes m a (b ∷ bs) = put_bytes (write m a (b % 256)) (a + 1) bs

-- `memcpy` into a variable of the caller: `n` bytes.
unfoldable pub get_bytes : Bytes → Ptr → ℕ → List ℕ
get_bytes m a zero = []
get_bytes m a (suc n) = m a ∷ get_bytes m (a + 1) n

-- `en_ntohs` and `en_htons`; the operands of `|` have no bit in common.
abbrev pub ntohs : ℕ → ℕ
ntohs x = x / 256 % 256 + x % 256 * 256

-- `en_ntohl` and `en_htonl`
abbrev pub ntohl : ℕ → ℕ
ntohl x = x / 16777216 % 256 + x / 65536 % 256 * 256 + x / 256 % 256 * 65536 + x % 256 * 16777216
