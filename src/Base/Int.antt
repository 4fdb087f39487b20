-- ===== src/Base/Int.antt =====
-- Python's `int`, with the comparisons that the program makes.
use Prim.Native.Nat.{ℕ, suc}
use mathlib.Core.Bool.{Bool, true, false}

-- `negsuc n` is -(n + 1).
pub data ℤ : Type 0 where
  pos : ℕ → ℤ
  negsuc : ℕ → ℤ

-- `n <= 0`
unfoldable pub is_non_positive : ℤ → Bool
is_non_positive (pos ℕ.zero) = true
is_non_positive (pos (suc n)) = false
is_non_positive (negsuc n) = true

-- `max(0, n)`
unfoldable pub to_nat : ℤ → ℕ
to_nat (pos n) = n
to_nat (negsuc n) = 0

-- `if n:`
unfoldable pub is_truthy : ℤ → Bool
is_truthy (pos ℕ.zero) = false
is_truthy (pos (suc n)) = true
is_truthy (negsuc n) = true
