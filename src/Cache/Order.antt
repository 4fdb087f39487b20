-- ===== src/Cache/Order.antt =====
-- What moving a key to the end and evicting from the front do to an ordered dictionary.
use food_order_system.Base.{
  ℕ, ◌≤◌, ◌<◌, ◌≡◌, refl, String, string_eq, false, none, some, [], ◌∷◌, ◌++◌, arith, if◌then◌else◌,
  length, length-append, Option-cases, inl, inr, ==_iff, ◌==◌,
}
use food_order_system.Base.Dict
use food_order_system.Base.Dict.{
  Dict, IsDistinct, Absent, IsDistinct-remove, IsDistinct-append, Absent-remove_self,
  length-remove-le, length-remove-lt, get-remove, get_of_Absent,
}
use food_order_system.Cache.{move_to_end, evict}

module _ {V : Type 0} where
  pub length-evict-le : (n : ℕ) (d : Dict String V) → length (evict n d) ≤ n
  unfolding evict
  length-evict-le n [] = omega arith
  length-evict-le n (x ∷ xs) = ground (arith, length-evict-le n xs)

  pub IsDistinct-evict : (n : ℕ) (d : Dict String V) → IsDistinct d → IsDistinct (evict n d)
  unfolding evict
  IsDistinct-evict n [] h = tt
  IsDistinct-evict n (x ∷ xs) h = ground (arith, IsDistinct-evict n xs h.1)

  pub IsDistinct-move_to_end :
      (d : Dict String V) (k : String) → IsDistinct d → IsDistinct (move_to_end d k)
  unfolding move_to_end
  IsDistinct-move_to_end d k h = elim (Option-cases (Dict.get d k)) [
    | inl e ↦ rw (e, move_to_end) h
    | inr (v, e) ↦
        rw (e, move_to_end)
          (IsDistinct-append (Dict.remove d k) k v (Absent-remove_self d k)
            (IsDistinct-remove d k h))
  ]

  pub length-move_to_end-le : (d : Dict String V) (k : String) → length (move_to_end d k) ≤ length d
  unfolding move_to_end
  length-move_to_end-le d k = elim (Option-cases (Dict.get d k)) [
    | inl e ↦ rw (e, move_to_end) (omega arith)
    | inr (v, e) ↦
        rw (e, move_to_end)
          (omega (arith, length-append (Dict.remove d k) ((k, v) ∷ []), length-remove-lt d k v e))
  ]

  get-append_one :
      (d : Dict String V) (k j : String) (v : V)
      → Dict.get (d ++ (k, v) ∷ []) j
        ≡ elim (Dict.get d j) [ some w ↦ some w | none ↦ if k == j then some v else none ]
  unfolding Dict.get
  get-append_one [] k j v = refl
  get-append_one ((i, w) ∷ d) k j v = ground (arith, get-append_one d k j v)

  -- Moving a key changes the order and no value.
  pub get-move_to_end :
      (d : Dict String V) (k j : String) → Dict.get (move_to_end d k) j ≡ Dict.get d j
  unfolding move_to_end
  get-move_to_end d k j = elim (Option-cases (Dict.get d k)) [
    | inl e ↦ rw (e, move_to_end)
    | inr (v, e) ↦
        rw (e, move_to_end)
          (ground (arith, get-append_one (Dict.remove d k) k j v, get-remove d k j, ==_iff k j))
  ]

  Absent-get :
      (d : Dict String V) (i k : String) (v : V)
      → Absent i d
      → Dict.get d k ≡ some v
      → (i == k) ≡ false
  unfolding Dict.get
  Absent-get [] i k v a h = absurd (ground arith)
  Absent-get ((j, w) ∷ d) i k v a h =
      ground (arith, ==_iff j k, ==_iff j i, ==_iff i k, Absent-get d i k v a.1)

  -- What is left after an eviction was there before.
  pub get-evict :
      (n : ℕ) (d : Dict String V) (k : String) (v : V)
      → IsDistinct d
      → Dict.get (evict n d) k ≡ some v
      → Dict.get d k ≡ some v
  unfolding evict Dict.get
  get-evict n [] k v s h = h
  get-evict n ((j, w) ∷ d) k v s h = ground (arith, get-evict n d k v s.1, Absent-get d j k v s.0)

  -- The newest entry survives an eviction that leaves room for one.
  pub get-evict_last :
      (n : ℕ) (d : Dict String V) (k : String) (v : V)
      → 0 < n
      → Absent k d
      → Dict.get (evict n (d ++ (k, v) ∷ [])) k ≡ some v
  unfolding evict Dict.get
  get-evict_last n [] k v p a = ground (arith, ==_iff k k)
  get-evict_last n ((j, w) ∷ d) k v p a = ground (
    arith,
    get-evict_last n d k v p a.1,
    get-append_one d k k v,
    get_of_Absent d k a.1,
    ==_iff k k,
  )
