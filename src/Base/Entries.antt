-- ===== src/Base/Entries.antt =====
-- The entries of a dictionary as a list, and the members of mapped lists.

use mathlib.Core.Path.{◌≡◌, refl, ap, sym, ◌∙◌}
use mathlib.Core.Bool.{true, false}
use mathlib.Core.Logic.{inl, inr}
use mathlib.Core.Option.{some}
use mathlib.Core.List.{List, [], ◌∷◌, map}
use native.Mathlib.Omega.{arith}
use food_order_system.Base.Tests.{Eq, ◌==◌, ==_iff, ==_sym, Bool-cases}
use food_order_system.Base.Lists.{In}
use food_order_system.Base.Dict
use food_order_system.Base.Dict.{Dict, Absent, IsDistinct}

module _ {A B : Type 0} (f : A → B) where
  pub In-map : (xs : List A) (a : A) → In a xs → In (f a) (map f xs)
  In-map [] a m = m
  In-map (x ∷ xs) a (inl e) = inl (ap f e)
  In-map (x ∷ xs) a (inr m) = inr (In-map xs a m)

  pub In-of_In-map : (xs : List A) (b : B) → In b (map f xs) → (a : A) × In a xs × (b ≡ f a)
  In-of_In-map [] b m = absurd m
  In-of_In-map (x ∷ xs) b (inl e) = (x, inl refl, e)
  In-of_In-map (x ∷ xs) b (inr m) = let (a, n, e) = In-of_In-map xs b m in (a, inr n, e)

module _ {K V : Type 0} ⦃e : Eq K⦄ where
  pub In-get : (d : Dict K V) (k : K) (v : V) → Dict.get d k ≡ some v → In (k, v) d
  unfolding Dict.get
  In-get [] k v h = absurd (ground arith)
  In-get ((j, w) ∷ d) k v h = elim (Bool-cases (j == k)) [
    | inl same ↦
        let key : j ≡ k = (==_iff j k).0 same in
        let value : w ≡ v = ground (arith, h, same) in
        inl (ap (λ x. (x, v)) (sym key) ∙ ap (λ y. (j, y)) (sym value))
    | inr other ↦ inr (In-get d k v (ground (arith, h, other)))
  ]

  Absent-In : (d : Dict K V) (j k : K) (v : V) → Absent j d → In (k, v) d → (k == j) ≡ false
  Absent-In [] j k v a m = absurd m
  Absent-In ((i, w) ∷ d) j k v a (inl m) = ap (λ x. x.0 == j) m ∙ a.0
  Absent-In ((i, w) ∷ d) j k v a (inr m) = Absent-In d j k v a.1 m

  pub get-In : (d : Dict K V) (k : K) (v : V) → IsDistinct d → In (k, v) d → Dict.get d k ≡ some v
  unfolding Dict.get
  get-In [] k v h m = absurd m
  get-In ((j, w) ∷ d) k v h (inl m) =
      let same : (j == k) ≡ true = (==_iff j k).1 (ap (λ x. x.0) (sym m)) in
      rw same (ap (λ x. some x.1) (sym m))
  get-In ((j, w) ∷ d) k v h (inr m) =
      let other : (j == k) ≡ false = ==_sym j k ∙ Absent-In d j k v h.0 m in
      rw other (get-In d k v h.1 m)
