-- ===== src/Base/Lists.antt =====
-- Lists measured by native numbers, Boolean searches, and predicates on every element.
use Prim.Native.Nat.{ℕ, zero, suc, ◌+◌, ◌-◌, ◌≤◌, min}
use mathlib.Core.Path.{◌≡◌, refl, ap, sym, subst}
use mathlib.Core.Bool.{Bool, true, false, ◌&&◌, ◌||◌}
use mathlib.Core.List.{List, [], ◌∷◌, ◌++◌}
use mathlib.Core.Logic.{◌⊎◌, inl, inr}
use mathlib.Core.Option.{Option, none, some}
use native.Mathlib.Omega.{arith}
use food_order_system.Base.Tests.{if◌then◌else◌, Eq, ◌==◌, Bool-cases}

module _ {ℓ} {A : Type ℓ} where
  abbrev pub length : List A → ℕ
  length [] = 0
  length (x ∷ xs) = suc (length xs)

  -- `l[:n]`
  unfoldable pub take : ℕ → List A → List A
  take zero xs = []
  take (suc n) [] = []
  take (suc n) (x ∷ xs) = x ∷ take n xs

  -- `l[n:]`
  unfoldable pub drop : ℕ → List A → List A
  drop zero xs = xs
  drop (suc n) [] = []
  drop (suc n) (x ∷ xs) = drop n xs

  -- `[x for x in l if p(x)]`
  unfoldable pub select : (A → Bool) → List A → List A
  select p [] = []
  select p (x ∷ xs) = let rest = select p xs in if p x then x ∷ rest else rest

  -- The loop `for x in l: if p(x): return x`.
  unfoldable pub first : (A → Bool) → List A → Option A
  first p [] = none
  first p (x ∷ xs) = if p x then some x else first p xs

  unfoldable pub any : (A → Bool) → List A → Bool
  any p [] = false
  any p (x ∷ xs) = p x || any p xs

  abbrev pub every : (A → Bool) → List A → Bool
  every p [] = true
  every p (x ∷ xs) = p x && every p xs

  abbrev pub is_empty : List A → Bool
  is_empty [] = true
  is_empty (x ∷ xs) = false

  abbrev pub All {κ} : (A → Type κ) → List A → Type κ
  All P [] = Unit
  All P (x ∷ xs) = P x × All P xs

  pub All-every {κ} :
      (P : A → Type κ) (p : A → Bool) (xs : List A)
      → ((a : A) → p a ≡ true → P a)
      → every p xs ≡ true
      → All P xs
  All-every P p [] imp h = tt
  All-every P p (x ∷ xs) imp h =
      let all : (p x ≡ true) × (every p xs ≡ true) = ground (arith, h) in
      (imp x all.0, All-every P p xs imp all.1)

  pub length-append : (xs ys : List A) → length (xs ++ ys) ≡ length xs + length ys
  length-append [] ys = omega arith
  length-append (x ∷ xs) ys = omega (arith, length-append xs ys)

  pub length-take : (n : ℕ) (xs : List A) → length (take n xs) ≡ min n (length xs)
  unfolding take
  length-take zero xs = omega arith
  length-take (suc n) [] = omega arith
  length-take (suc n) (x ∷ xs) = omega (arith, length-take n xs)

  pub length-drop : (n : ℕ) (xs : List A) → length (drop n xs) ≡ length xs - n
  unfolding drop
  length-drop zero xs = omega arith
  length-drop (suc n) [] = omega arith
  length-drop (suc n) (x ∷ xs) = omega (arith, length-drop n xs)

  pub length-select-le : (p : A → Bool) (xs : List A) → length (select p xs) ≤ length xs
  unfolding select
  length-select-le p [] = omega arith
  length-select-le p (x ∷ xs) = ground (arith, length-select-le p xs)

  pub All-append {κ} : (P : A → Type κ) (xs ys : List A) → All P xs → All P ys → All P (xs ++ ys)
  All-append P [] ys h k = k
  All-append P (x ∷ xs) ys h k = (h.0, All-append P xs ys h.1 k)

  pub All-take {κ} : (P : A → Type κ) (n : ℕ) (xs : List A) → All P xs → All P (take n xs)
  unfolding take
  All-take P zero xs h = tt
  All-take P (suc n) [] h = tt
  All-take P (suc n) (x ∷ xs) h = (h.0, All-take P n xs h.1)

module _ {A : Type 0} where
  abbrev pub In : A → List A → Type 0
  In a [] = ⊥
  In a (x ∷ xs) = (a ≡ x) ⊎ In a xs

  pub first_sound :
      (p : A → Bool) (xs : List A) (a : A) → first p xs ≡ some a → In a xs × (p a ≡ true)
  unfolding first
  first_sound p [] a h = absurd (ground arith)
  first_sound p (x ∷ xs) a h = ground (arith, first_sound p xs a)

  pub In-select : (p : A → Bool) (xs : List A) (a : A) → In a (select p xs) → In a xs × (p a ≡ true)
  unfolding select
  In-select p [] a m = absurd m
  In-select p (x ∷ xs) a m = ground (arith, In-select p xs a)

  pub In-select_intro :
      (p : A → Bool) (xs : List A) (a : A) → In a xs → p a ≡ true → In a (select p xs)
  unfolding select
  In-select_intro p [] a m h = m
  In-select_intro p (x ∷ xs) a (inl e) h = ground (arith, ap p e)
  In-select_intro p (x ∷ xs) a (inr m) h = ground (arith, In-select_intro p xs a m h)

  pub is_empty_of_In : (xs : List A) (a : A) → In a xs → is_empty xs ≡ false
  is_empty_of_In [] a m = absurd m
  is_empty_of_In (x ∷ xs) a m = refl

  -- A search that some element passes finds one.
  pub first_complete :
      (p : A → Bool) (xs : List A) (a : A) → In a xs → p a ≡ true → (b : A) × (first p xs ≡ some b)
  unfolding first
  first_complete p [] a m h = absurd m
  first_complete p (x ∷ xs) a (inl e) h = (x, rw (← e) (rw h))
  first_complete p (x ∷ xs) a (inr m) h = elim (Bool-cases (p x)) [
    | inl t ↦ (x, rw t)
    | inr f ↦ rw f (first_complete p xs a m h)
  ]

  pub All-of_In : (P : A → Type 0) (xs : List A) → ((a : A) → In a xs → P a) → All P xs
  All-of_In P [] h = tt
  All-of_In P (x ∷ xs) h = (h x (inl refl), All-of_In P xs (λ a m. h a (inr m)))

  pub In-All : (P : A → Type 0) (xs : List A) (a : A) → All P xs → In a xs → P a
  In-All P [] a h m = absurd m
  In-All P (x ∷ xs) a h (inl p) = subst P (sym p) h.0
  In-All P (x ∷ xs) a h (inr m) = In-All P xs a h.1 m

  pub In-take : (n : ℕ) (xs : List A) (a : A) → In a (take n xs) → In a xs
  unfolding take
  In-take zero xs a m = absurd m
  In-take (suc n) [] a m = m
  In-take (suc n) (x ∷ xs) a (inl p) = inl p
  In-take (suc n) (x ∷ xs) a (inr m) = inr (In-take n xs a m)

module _ {ℓ} {A : Type ℓ} ⦃e : Eq A⦄ where
  -- `a in l`
  unfoldable pub contains : List A → A → Bool
  contains [] a = false
  contains (x ∷ xs) a = x == a || contains xs a

-- How many elements pass a test.
abbrev pub count {ℓ} : {A : Type ℓ} → (A → Bool) → List A → ℕ
count p xs = length (select p xs)

module _ {A : Type 0} where
  pub count-append : (p : A → Bool) (xs ys : List A) → count p (xs ++ ys) ≡ count p xs + count p ys
  unfolding select
  count-append p [] ys = omega arith
  count-append p (x ∷ xs) ys = ground (arith, count-append p xs ys)

  pub count_of_All :
      (p : A → Bool) (b : Bool) (xs : List A)
      → All (λ x. p x ≡ b) xs
      → count p xs ≡ (if b then length xs else 0)
  unfolding select
  count_of_All p true [] h = refl
  count_of_All p false [] h = refl
  count_of_All p b (x ∷ xs) h = ground (arith, count_of_All p b xs h.1, h.0)

-- `[x] * n`
abbrev pub repeat {ℓ} : {A : Type ℓ} → ℕ → A → List A
repeat zero x = []
repeat (suc n) x = x ∷ repeat n x
