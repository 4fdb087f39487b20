-- ===== src/Base/Dict.antt =====
-- Python's `dict`: an association list in insertion order. Assigning to a key that is present
-- keeps its place; a new key goes to the end.
use Prim.Native.Nat.{suc, ◌≤◌}
use mathlib.Core.Path.{◌≡◌, refl, ◌∙◌}
use mathlib.Core.Bool.{false}
use mathlib.Core.Option.{Option, none, some}
use mathlib.Core.List.{List, [], ◌∷◌, ◌++◌}
use native.Mathlib.Omega.{arith}
use food_order_system.Base.Tests.{if◌then◌else◌, Eq, ◌==◌, ==_iff, ==_sym}
use food_order_system.Base.Lists.{length}

abbrev pub Dict {ℓ κ} : Type ℓ → Type κ → Type (ℓ ⊔ κ)
Dict K V = List (K × V)

module _ {ℓ κ} {K : Type ℓ} {V : Type κ} ⦃e : Eq K⦄ where
  -- `d.get(k)`
  unfoldable pub get : Dict K V → K → Option V
  get [] k = none
  get ((j, v) ∷ d) k = if j == k then some v else get d k

  -- `d[k] = v`
  unfoldable pub put : Dict K V → K → V → Dict K V
  put [] k v = (k, v) ∷ []
  put ((j, w) ∷ d) k v = if j == k then (j, v) ∷ d else (j, w) ∷ put d k v

  -- `d.pop(k, None)`, `del d[k]`
  unfoldable pub remove : Dict K V → K → Dict K V
  remove [] k = []
  remove ((j, v) ∷ d) k = let rest = remove d k in if j == k then rest else (j, v) ∷ rest

  abbrev pub Absent : K → Dict K V → Type 0
  Absent k [] = Unit
  Absent k ((j, v) ∷ d) = ((j == k) ≡ false) × Absent k d

  -- No key occurs twice.
  abbrev pub IsDistinct : Dict K V → Type 0
  IsDistinct [] = Unit
  IsDistinct ((j, v) ∷ d) = Absent j d × IsDistinct d

  pub get-put :
      (d : Dict K V) (k j : K) (v : V) → get (put d k v) j ≡ (if k == j then some v else get d j)
  unfolding get put
  get-put [] k j v = refl
  get-put ((i, w) ∷ d) k j v = ground (arith, ==_iff k j, ==_iff i k, ==_iff i j, get-put d k j v)

  pub get-remove :
      (d : Dict K V) (gone key : K)
      → get (remove d gone) key ≡ (if gone == key then none else get d key)
  unfolding remove get
  get-remove [] gone key = ground arith
  get-remove ((i, w) ∷ d) gone key =
      ground (arith, ==_iff gone key, ==_iff i gone, ==_iff i key, get-remove d gone key)

  pub length-remove-le : (d : Dict K V) (k : K) → length (remove d k) ≤ length d
  unfolding remove
  length-remove-le [] k = omega arith
  length-remove-le ((i, w) ∷ d) k = ground (arith, length-remove-le d k)

  pub length-put-le : (d : Dict K V) (k : K) (v : V) → length (put d k v) ≤ suc (length d)
  unfolding put
  length-put-le [] k v = omega arith
  length-put-le ((i, w) ∷ d) k v = ground (arith, length-put-le d k v)

  pub Absent-put :
      (d : Dict K V) (i k : K) (v : V) → (k == i) ≡ false → Absent i d → Absent i (put d k v)
  unfolding put
  Absent-put [] i k v h a = (h, tt)
  Absent-put ((j, w) ∷ d) i k v h a = ground (arith, Absent-put d i k v h a.1)

  pub Absent-remove : (d : Dict K V) (i k : K) → Absent i d → Absent i (remove d k)
  unfolding remove
  Absent-remove [] i k a = tt
  Absent-remove ((j, w) ∷ d) i k a = ground (arith, Absent-remove d i k a.1)

  pub Absent-remove_self : (d : Dict K V) (k : K) → Absent k (remove d k)
  unfolding remove
  Absent-remove_self [] k = tt
  Absent-remove_self ((j, w) ∷ d) k = ground (arith, Absent-remove_self d k)

  pub IsDistinct-put : (d : Dict K V) (k : K) (v : V) → IsDistinct d → IsDistinct (put d k v)
  unfolding put
  IsDistinct-put [] k v h = (tt, tt)
  IsDistinct-put ((j, w) ∷ d) k v h =
      ground (arith, ==_sym j k, Absent-put d j k v, IsDistinct-put d k v h.1)

  pub IsDistinct-remove : (d : Dict K V) (k : K) → IsDistinct d → IsDistinct (remove d k)
  unfolding remove
  IsDistinct-remove [] k h = tt
  IsDistinct-remove ((j, w) ∷ d) k h =
      ground (arith, Absent-remove d j k h.0, IsDistinct-remove d k h.1)

  pub Absent-append :
      (d : Dict K V) (i k : K) (v : V) → (k == i) ≡ false → Absent i d → Absent i (d ++ (k, v) ∷ [])
  Absent-append [] i k v h a = (h, tt)
  Absent-append ((j, w) ∷ d) i k v h a = (a.0, Absent-append d i k v h a.1)

  pub IsDistinct-append :
      (d : Dict K V) (k : K) (v : V) → Absent k d → IsDistinct d → IsDistinct (d ++ (k, v) ∷ [])
  IsDistinct-append [] k v a h = (tt, tt)
  IsDistinct-append ((j, w) ∷ d) k v a h =
      (Absent-append d j k v (==_sym k j ∙ a.0) h.0, IsDistinct-append d k v a.1 h.1)

  pub get_of_Absent : (d : Dict K V) (k : K) → Absent k d → get d k ≡ none
  unfolding get
  get_of_Absent [] k a = refl
  get_of_Absent ((j, w) ∷ d) k a = ground (arith, get_of_Absent d k a.1)

  pub Absent-of_get : (d : Dict K V) (k : K) → get d k ≡ none → Absent k d
  unfolding get
  Absent-of_get [] k h = tt
  Absent-of_get ((j, w) ∷ d) k h = ground (arith, Absent-of_get d k)

  -- Removing a key that is there makes room for one.
  pub length-remove-lt :
      (d : Dict K V) (k : K) (v : V) → get d k ≡ some v → suc (length (remove d k)) ≤ length d
  unfolding get remove
  length-remove-lt [] k v h = absurd (ground arith)
  length-remove-lt ((j, w) ∷ d) k v h = ground (arith, length-remove-le d k, length-remove-lt d k v)

  -- Assigning to a key that is there changes no length, and to a new one adds one.
  pub length-put_present :
      (d : Dict K V) (k : K) (v w : V) → get d k ≡ some w → length (put d k v) ≡ length d
  unfolding get put
  length-put_present [] k v w h = absurd (ground arith)
  length-put_present ((j, u) ∷ d) k v w h = ground (arith, length-put_present d k v w)

  pub length-put_absent :
      (d : Dict K V) (k : K) (v : V) → get d k ≡ none → length (put d k v) ≡ suc (length d)
  unfolding get put
  length-put_absent [] k v h = refl
  length-put_absent ((j, u) ∷ d) k v h = ground (arith, length-put_absent d k v)

  pub remove_of_Absent : (d : Dict K V) (k : K) → Absent k d → remove d k ≡ d
  unfolding remove
  remove_of_Absent [] k a = refl
  remove_of_Absent ((j, w) ∷ d) k a =
      ground (arith, ==_sym j k, ==_iff j k, ==_iff k j, remove_of_Absent d k a.1)
