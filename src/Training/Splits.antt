-- ===== src/Training/Splits.antt =====
-- The split into a training part and a validation part.
use food_order_system.Base.{
  zero, suc, [], ◌∷◌, ℕ, ◌+◌, ◌≡◌, max, min, refl, ap, ◌∙◌, Bool, false, List, ◌++◌, arith, length,
  take, drop, count, count-append, length-take, suc, ◌∷◌,
}
use food_order_system.Base.Float.{Float}
use food_order_system.Training.{done, Example, Random, split_dataset}
use food_order_system.Training.Balance.{same_length}

take-drop : {A : Type 0} (n : ℕ) (xs : List A) → take n xs ++ drop n xs ≡ xs
unfolding take drop
take-drop zero xs = refl
take-drop (suc n) [] = refl
take-drop (suc n) (x ∷ xs) = ap (λ l. x ∷ l) (take-drop n xs)

module _ (random : Random) (fl : Float) (int : fl.F → ℕ) where
  open fl use {F, zero_f, of_nat, mul_f, leb_f}

  -- At a fraction between 0 and 1 the split loses no example and takes none twice: of the examples
  -- that pass any test, those of the two parts together are as many as those of the data. The
  -- validation part has the size of the fraction, but at least one example if there is one.
  pub split_dataset_lem :
      (records : List Example) (val_frac : F) (seed : ℕ)
      → leb_f val_frac zero_f ≡ false
      → leb_f (of_nat 1) val_frac ≡ false
      → (train : List Example) × (val : List Example) × (split_dataset random fl int records
            val_frac seed
          ≡ done (train, val))
        × ((p : Example → Bool) → count p train + count p val ≡ count p records)
        × (length val
            ≡ min (max 1 (int (mul_f (of_nat (length records)) val_frac))) (length records))
  unfolding split_dataset
  split_dataset_lem records val_frac seed low high =
      let shuffled = random.shuffle records (random.seeded seed) in
      let cut = max 1 (int (mul_f (of_nat (length shuffled)) val_frac)) in
      let size : length shuffled ≡ length records =
        same_length shuffled records (λ p. random.shuffle_count p records (random.seeded seed)) in
      let whole = take-drop cut shuffled in
      (
        drop cut shuffled,
        take cut shuffled,
        rw (low, high, split_dataset) refl,
        (λ p. omega (
          arith,
          count-append p (take cut shuffled) (drop cut shuffled),
          ap (count p) whole,
          random.shuffle_count p records (random.seeded seed),
        )),
        length-take cut shuffled ∙ ap (λ n. min (max 1 (int (mul_f (of_nat n) val_frac))) n) size,
      )
