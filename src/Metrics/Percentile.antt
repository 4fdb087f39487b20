-- ===== src/Metrics/Percentile.antt =====
-- The nearest-rank percentile.
use food_order_system.Base.{
  ℕ, zero, suc, ◌-◌, ◌*◌, ◌≤◌, ◌<◌, min, ◌≡◌, refl, List, [], ◌∷◌, arith, length, select, true, not,
  In, In-All, All, inl, inr, ◌≢◌,
}
use native.Mathlib.Nat.{mul-le-mul_right}
use food_order_system.Base.Float.{Float}
use food_order_system.Base.Sort.{
  sort, IsSorted, sort-IsSorted, In-sort, length-sort, length-select-sort,
}
use food_order_system.Metrics.{nth, rank, percentile}

module _ (fl : Float) where
  open fl use {F, zero_f, leb_f, leb_total, leb_trans}

  In-nth : (xs : List F) (i : ℕ) → i < length xs → In (nth fl zero_f xs i) xs
  unfolding nth
  In-nth [] i h = absurd (omega arith)
  In-nth (x ∷ xs) zero h = inl refl
  In-nth (x ∷ xs) (suc i) h = inr (In-nth xs i (omega arith))

  -- In a sorted list at least `i + 1` values are at most the one at place `i`.
  at_most-nth :
      (xs : List F) (i : ℕ)
      → IsSorted leb_f xs
      → i < length xs
      → suc i ≤ length (select (λ x. leb_f x (nth fl zero_f xs i)) xs)
  unfolding nth select
  at_most-nth [] i s h = absurd (omega arith)
  at_most-nth (x ∷ xs) zero s h = ground (arith, leb_total x x)
  at_most-nth (x ∷ xs) (suc i) s h = ground (
    arith,
    at_most-nth xs i s.1,
    In-All (λ y. leb_f x y ≡ true) xs (nth fl zero_f xs i) s.0 (In-nth xs i (omega arith)),
  )

  none_below :
      (x : F) (xs : List F)
      → All (λ y. leb_f x y ≡ true) xs
      → length (select (λ y. not (leb_f x y)) xs) ≡ 0
  unfolding select
  none_below x [] h = refl
  none_below x (y ∷ ys) h = ground (arith, none_below x ys h.1)

  -- And at most `i` values are below it.
  below-nth :
      (xs : List F) (i : ℕ)
      → IsSorted leb_f xs
      → i < length xs
      → length (select (λ x. not (leb_f (nth fl zero_f xs i) x)) xs) ≤ i
  unfolding nth select
  below-nth [] i s h = absurd (omega arith)
  below-nth (x ∷ xs) zero s h = ground (arith, leb_total x x, none_below x xs s.0)
  below-nth (x ∷ xs) (suc i) s h = ground (arith, below-nth xs i s.1)

  rank_bounds :
      (pct n : ℕ)
      → pct ≤ 100
      → (pct * suc n ≤ 100 * suc (min (rank fl pct (suc n) - 1) n))
        × (100 * min (rank fl pct (suc n) - 1) n ≤ pct * suc n)
  unfolding rank
  rank_bounds pct n h =
      let top : pct * suc n ≤ 100 * suc n = mul-le-mul_right (suc n) h in omega (arith, top)

  -- At a percentage of at most 100, the percentile of a non-empty list is one of its values; at least `pct` percent of the values
  -- are at most it, and at most `pct` percent are below it.
  pub percentile-rank :
      (xs : List F) (pct : ℕ)
      → xs ≢ []
      → pct ≤ 100
      → In (percentile fl xs pct) xs
        × (pct * length xs ≤ 100 * length (select (λ x. leb_f x (percentile fl xs pct)) xs))
        × (100 * length (select (λ x. not (leb_f (percentile fl xs pct) x)) xs) ≤ pct * length xs)
  unfolding percentile
  percentile-rank [] pct h k = absurd (h refl)
  percentile-rank (x ∷ xs) pct h k =
      let l = sort leb_f (x ∷ xs) in
      let n = length xs in
      let size : length l ≡ suc n = length-sort leb_f (x ∷ xs) in
      let i = min (rank fl pct (length l) - 1) (length l - 1) in
      let place : i ≡ min (rank fl pct (suc n) - 1) n = rw size (omega arith) in
      let sorted = sort-IsSorted leb_f leb_total leb_trans (x ∷ xs) in
      let (low, high) = rank_bounds pct n k in
      let p = nth fl zero_f l i in
      (
        In-sort leb_f (x ∷ xs) p (In-nth l i (omega arith)),
        omega (
          arith,
          at_most-nth l i sorted (omega arith),
          length-select-sort leb_f (λ y. leb_f y p) (x ∷ xs),
        ),
        omega (
          arith,
          below-nth l i sorted (omega arith),
          length-select-sort leb_f (λ y. not (leb_f p y)) (x ∷ xs),
        ),
      )
