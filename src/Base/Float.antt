-- ===== src/Base/Float.antt =====
-- Python's `float`, as an interface: a carrier, the operations that the program uses, and the
-- order of the finite values.
use Prim.Native.Nat.{ℕ}
use mathlib.Core.Path.{◌≡◌}
use mathlib.Core.Bool.{Bool, true}
use mathlib.Core.Logic.{◌⊎◌}

pub record Float : Type 1 where
  pub F : Type 0
  pub zero_f : F
  pub of_nat : ℕ → F
  pub add_f : F → F → F
  pub mul_f : F → F → F
  pub div_f : F → F → F
  -- `round(x, n)`
  pub round_f : F → ℕ → F
  -- `a <= b`
  pub leb_f : F → F → Bool
  pub leb_total : (a b : F) → (leb_f a b ≡ true) ⊎ (leb_f b a ≡ true)
  pub leb_trans : (a b c : F) → leb_f a b ≡ true → leb_f b c ≡ true → leb_f a c ≡ true
