-- ===== src/Base/Sort.antt =====
-- Python's `sorted`: a stable sort by a Boolean order.
use Prim.Native.Nat.{suc}
use mathlib.Core.Path.{◌≡◌, refl}
use mathlib.Core.Bool.{Bool, true}
use mathlib.Core.Logic.{◌⊎◌, inl, inr}
use mathlib.Core.List.{List, [], ◌∷◌}
use native.Mathlib.Omega.{arith}
use food_order_system.Base.Tests.{if◌then◌else◌, Bool-cases}
use food_order_system.Base.Lists.{length, All, In, select}

module _ {A : Type 0} (le : A → A → Bool) where
  -- Equal elements keep their order: `x` goes before what it is at most.
  unfoldable pub insert : A → List A → List A
  insert x [] = x ∷ []
  insert x (y ∷ ys) = if le x y then x ∷ y ∷ ys else y ∷ insert x ys

  unfoldable pub sort : List A → List A
  unfolding insert
  sort [] = []
  sort (x ∷ xs) = insert x (sort xs)

  -- Each element is at most every later one.
  abbrev pub IsSorted : List A → Type 0
  IsSorted [] = Unit
  IsSorted (x ∷ xs) = All (λ y. le x y ≡ true) xs × IsSorted xs

  length-insert : (x : A) (xs : List A) → length (insert x xs) ≡ suc (length xs)
  unfolding insert
  length-insert x [] = refl
  length-insert x (y ∷ ys) = ground (arith, length-insert x ys)

  pub length-sort : (xs : List A) → length (sort xs) ≡ length xs
  unfolding sort
  length-sort [] = refl
  length-sort (x ∷ xs) = omega (arith, length-insert x (sort xs), length-sort xs)

  In-insert : (x : A) (xs : List A) (a : A) → In a (insert x xs) → (a ≡ x) ⊎ In a xs
  unfolding insert
  In-insert x [] a m = m
  In-insert x (y ∷ ys) a m = ground (arith, In-insert x ys a)

  pub In-sort : (xs : List A) (a : A) → In a (sort xs) → In a xs
  unfolding sort
  In-sort [] a m = m
  In-sort (x ∷ xs) a m = ground (arith, In-insert x (sort xs) a, In-sort xs a)

  In-insert_intro : (x : A) (xs : List A) (a : A) → (a ≡ x) ⊎ In a xs → In a (insert x xs)
  unfolding insert
  In-insert_intro x [] a m = m
  In-insert_intro x (y ∷ ys) a m = ground (arith, In-insert_intro x ys a)

  pub In-sort_intro : (xs : List A) (a : A) → In a xs → In a (sort xs)
  unfolding sort
  In-sort_intro [] a m = m
  In-sort_intro (x ∷ xs) a (inl e) = In-insert_intro x (sort xs) a (inl e)
  In-sort_intro (x ∷ xs) a (inr m) = In-insert_intro x (sort xs) a (inr (In-sort_intro xs a m))

  All-insert : (P : A → Type 0) (x : A) (xs : List A) → P x → All P xs → All P (insert x xs)
  unfolding insert
  All-insert P x [] p h = (p, tt)
  All-insert P x (y ∷ ys) p h = ground (arith, All-insert P x ys p h.1)

  pub All-sort : (P : A → Type 0) (xs : List A) → All P xs → All P (sort xs)
  unfolding sort
  All-sort P [] h = tt
  All-sort P (x ∷ xs) h = All-insert P x (sort xs) h.0 (All-sort P xs h.1)

  module _ (total : (a b : A) → (le a b ≡ true) ⊎ (le b a ≡ true))
      (trans : (a b c : A) → le a b ≡ true → le b c ≡ true → le a c ≡ true) where
    All-trans :
        (x y : A) (xs : List A)
        → le x y ≡ true
        → All (λ z. le y z ≡ true) xs
        → All (λ z. le x z ≡ true) xs
    All-trans x y [] p h = tt
    All-trans x y (z ∷ zs) p h = (trans x y z p h.0, All-trans x y zs p h.1)

    insert-IsSorted : (x : A) (xs : List A) → IsSorted xs → IsSorted (insert x xs)
    unfolding insert
    insert-IsSorted x [] s = (tt, tt)
    insert-IsSorted x (y ∷ ys) s = elim (Bool-cases (le x y)) [
      | inl p ↦ rw p ((p, All-trans x y ys p s.0), s)
      | inr p ↦ rw p (
        All-insert (λ z. le y z ≡ true) x ys (ground (arith, total x y)) s.0,
        insert-IsSorted x ys s.1,
      )
    ]

    pub sort-IsSorted : (xs : List A) → IsSorted (sort xs)
    unfolding sort
    sort-IsSorted [] = tt
    sort-IsSorted (x ∷ xs) = insert-IsSorted x (sort xs) (sort-IsSorted xs)

  -- Sorting keeps how many elements pass a test.
  length-select-insert :
      (p : A → Bool) (x : A) (xs : List A)
      → length (select p (insert x xs)) ≡ length (select p (x ∷ xs))
  unfolding insert select
  length-select-insert p x [] = refl
  length-select-insert p x (y ∷ ys) = ground (arith, length-select-insert p x ys)

  pub length-select-sort :
      (p : A → Bool) (xs : List A) → length (select p (sort xs)) ≡ length (select p xs)
  unfolding sort select
  length-select-sort p [] = refl
  length-select-sort p (x ∷ xs) =
      ground (arith, length-select-insert p x (sort xs), length-select-sort p xs)
