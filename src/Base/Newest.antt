-- ===== src/Base/Newest.antt =====
-- The last entries of a list, and of a list that grows.
use Prim.Native.Nat.{ℕ, zero, suc, ◌-◌, ◌≤◌}
use mathlib.Core.Path.{◌≡◌, refl, ap, sym, ◌∙◌}
use mathlib.Core.List.{List, [], ◌∷◌, ◌++◌, map}
use native.Mathlib.Nat.{zero-sub}
use native.Mathlib.Decide.{dec_le}
use native.Mathlib.Omega.{arith}
use food_order_system.Base.Lists.{length, drop, length-append, length-drop}

module _ {A : Type 0} where
  drop-append_one :
      (n : ℕ) (xs : List A) (x : A) → n ≤ length xs → drop n (xs ++ x ∷ []) ≡ drop n xs ++ x ∷ []
  unfolding drop
  drop-append_one zero xs x h = refl
  drop-append_one (suc n) [] x h = absurd (omega arith)
  drop-append_one (suc n) (y ∷ ys) x h = drop-append_one n ys x (omega arith)

  drop_one-drop : (n : ℕ) (xs : List A) → drop 1 (drop n xs) ≡ drop (suc n) xs
  unfolding drop
  drop_one-drop zero [] = refl
  drop_one-drop zero (x ∷ xs) = refl
  drop_one-drop (suc n) [] = refl
  drop_one-drop (suc n) (x ∷ xs) = drop_one-drop n xs

  -- The last `cap` entries.
  unfoldable pub newest : ℕ → List A → List A
  newest cap xs = drop (length xs - cap) xs

  pub length-newest-le : (cap : ℕ) (xs : List A) → length (newest cap xs) ≤ cap
  unfolding newest
  length-newest-le cap xs = omega (arith, length-drop (length xs - cap) xs)

  pub newest_nil : (cap : ℕ) → ◌≡◌ {A = List A} [] (newest cap [])
  unfolding newest drop
  newest_nil cap = rw zero-sub

  pub newest_of_le : (cap : ℕ) (xs : List A) → length xs ≤ cap → newest cap xs ≡ xs
  unfolding newest drop
  newest_of_le cap xs h = let e : length xs - cap ≡ 0 = omega arith in rw e

  -- To append to the last `cap` entries and cut is to cut what was appended to.
  pub newest-newest :
      (cap : ℕ) (xs : List A) (x : A)
      → newest cap (newest cap xs ++ x ∷ []) ≡ newest cap (xs ++ x ∷ [])
  unfolding newest
  newest-newest cap xs x = elim (dec_le cap (length xs)) [
    | no room ↦ ap (λ l. newest cap (l ++ x ∷ [])) (newest_of_le cap xs (omega arith))
    | yes full ↦
        let d = length xs - cap in
        let kept = drop d xs ++ x ∷ [] in
        let one : length kept - cap ≡ 1 =
          omega (arith, length-append (drop d xs) (x ∷ []), length-drop d xs) in
        let all : suc d ≡ length (xs ++ x ∷ []) - cap = omega (arith, length-append xs (x ∷ [])) in
        ap (λ n. drop n kept) one
        ∙ ap (drop 1) (sym (drop-append_one d xs x (omega arith)))
        ∙ drop_one-drop d (xs ++ x ∷ [])
        ∙ ap (λ n. drop n (xs ++ x ∷ [])) all
  ]

module _ {A B : Type 0} (f : A → B) where
  pub length-map : (xs : List A) → length (map f xs) ≡ length xs
  length-map [] = refl
  length-map (x ∷ xs) = ap suc (length-map xs)

  drop-map : (n : ℕ) (xs : List A) → drop n (map f xs) ≡ map f (drop n xs)
  unfolding drop
  drop-map zero xs = refl
  drop-map (suc n) [] = refl
  drop-map (suc n) (x ∷ xs) = drop-map n xs

  pub newest-map : (cap : ℕ) (xs : List A) → newest cap (map f xs) ≡ map f (newest cap xs)
  unfolding newest
  newest-map cap xs = rw (length-map xs) (drop-map (length xs - cap) xs)
