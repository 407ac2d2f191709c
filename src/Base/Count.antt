-- ===== src/Base/Count.antt =====
-- How often a number occurs in a list.
use Prim.Native.Nat.{ℕ, ◌+◌}
use mathlib.Core.Path.{◌≡◌}
use mathlib.Core.List.{List, [], ◌∷◌, ◌++◌}
use native.Mathlib.Omega.{arith}
use ertos.Base.Tests.{◌==◌, if◌then◌else◌}

-- 1 for the same number, 0 for another.
abbrev pub one : ℕ → ℕ → ℕ
one q p = if q == p then 1 else 0

abbrev pub count : ℕ → List ℕ → ℕ
count q [] = 0
count q (p ∷ ps) = one q p + count q ps

pub count-append : (q : ℕ) (ps rs : List ℕ) → count q (ps ++ rs) ≡ count q ps + count q rs
count-append q [] rs = omega arith
count-append q (p ∷ ps) rs = omega (arith, count-append q ps rs)
