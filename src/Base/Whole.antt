-- ===== src/Base/Whole.antt =====
-- Whole numbers as an instance of the interface of floats, on which the models run.
use food_order_system.Base.{ℕ, ◌+◌, ◌*◌, ◌/◌, ◌≡◌, ◌⊎◌, true, arith, leb}
use food_order_system.Base.Float.{Float}

pub whole_total : (a b : ℕ) → (leb a b ≡ true) ⊎ (leb b a ≡ true)
whole_total a b = ground arith

pub whole_trans : (a b c : ℕ) → leb a b ≡ true → leb b c ≡ true → leb a c ≡ true
whole_trans a b c p q = ground arith

abbrev pub whole : Float
whole = record {
  F = ℕ;
  zero_f = 0;
  of_nat = λ n. n;
  add_f = λ a b. a + b;
  mul_f = λ a b. a * b;
  div_f = λ a b. a / b;
  round_f = λ a n. a;
  leb_f = leb;
  leb_total = whole_total;
  leb_trans = whole_trans;
}

-- Numbers of tenths, in which there is something between 0 and 1.
abbrev pub tenths : Float
tenths = record whole { of_nat = λ n. 10 * n; mul_f = λ a b. a * b / 10; div_f = λ a b. 10 * a / b }
