-- ===== src/Base/Keys.antt =====
-- The keys of a dictionary, and what sorting its entries keeps.
use Prim.Native.Nat.{ℕ}
use mathlib.Core.Path.{◌≡◌}
use mathlib.Core.Bool.{Bool, true, false}
use mathlib.Core.Logic.{◌↔◌}
use mathlib.Core.List.{[], ◌∷◌, map}
use native.Mathlib.Omega.{arith}
use food_order_system.Base.Tests.{nat_eq, ◌==◌, ==_iff, ==_sym, leb, ltb}
use food_order_system.Base.Lists.{All}
use food_order_system.Base.Dict
use food_order_system.Base.Dict.{Dict, Absent, IsDistinct}
use food_order_system.Base.Sort.{insert, sort, IsSorted}

module _ {V : Type 0} where
  pub Absent-put_iff :
      (d : Dict ℕ V) (i k : ℕ) (v : V)
      → Absent i (Dict.put d k v) ↔ (((k == i) ≡ false) × Absent i d)
  unfolding Dict.put
  Absent-put_iff [] i k v = (λ h. h, λ h. h)
  Absent-put_iff ((j, w) ∷ d) i k v =
      ground (arith, Absent-put_iff d i k v, ==_iff j k, ==_iff k i, ==_iff j i)

  module _ (le : ℕ × V → ℕ × V → Bool) where
    Absent-insert_iff :
        (d : Dict ℕ V) (i : ℕ) (e : ℕ × V)
        → Absent i (insert le e d) ↔ (((e.0 == i) ≡ false) × Absent i d)
    unfolding insert
    Absent-insert_iff [] i e = (λ h. h, λ h. h)
    Absent-insert_iff ((j, w) ∷ d) i e = ground (arith, Absent-insert_iff d i e)

    pub Absent-sort_iff : (d : Dict ℕ V) (i : ℕ) → Absent i (sort le d) ↔ Absent i d
    unfolding sort
    Absent-sort_iff [] i = (λ h. h, λ h. h)
    Absent-sort_iff ((j, w) ∷ d) i =
        ground (arith, Absent-sort_iff d i, Absent-insert_iff (sort le d) i (j, w))

    IsDistinct-insert :
        (d : Dict ℕ V) (e : ℕ × V) → Absent e.0 d → IsDistinct d → IsDistinct (insert le e d)
    unfolding insert
    IsDistinct-insert [] e a h = (tt, tt)
    IsDistinct-insert ((j, w) ∷ d) e a h =
        ground (arith, Absent-insert_iff d j e, IsDistinct-insert d e a.1 h.1, ==_sym e.0 j)

    pub IsDistinct-sort : (d : Dict ℕ V) → IsDistinct d → IsDistinct (sort le d)
    unfolding sort
    IsDistinct-sort [] h = tt
    IsDistinct-sort ((j, w) ∷ d) h =
        IsDistinct-insert (sort le d) (j, w) ((Absent-sort_iff d j).1 h.0) (IsDistinct-sort d h.1)

  -- Entries in the order of their keys, no key twice, are in strictly ascending order.
  ascending_from :
      (d : Dict ℕ V) (i : ℕ)
      → All (λ e. leb i e.0 ≡ true) d
      → Absent i d
      → All (λ j. ltb i j ≡ true) (map (λ e. e.0) d)
  ascending_from [] i h a = tt
  ascending_from ((j, w) ∷ d) i h a =
      (ground (arith, h.0, a.0, ==_iff j i), ascending_from d i h.1 a.1)

  pub ascending_keys :
      (d : Dict ℕ V)
      → IsSorted (λ a b. leb a.0 b.0) d
      → IsDistinct d
      → IsSorted ltb (map (λ e. e.0) d)
  ascending_keys [] h a = tt
  ascending_keys ((j, w) ∷ d) h a = (ascending_from d j h.0 a.0, ascending_keys d h.1 a.1)
