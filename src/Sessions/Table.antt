-- ===== src/Sessions/Table.antt =====
-- Eviction keeps exactly the sessions that have not expired, in their order.
use food_order_system.Base.{
  ℕ, ◌+◌, ◌≡◌, refl, ap, String, string_eq, Bool, false, not, none, some, List, [], ◌∷◌, arith,
  if◌then◌else◌, length, select, contains, ==_iff, ==_sym,
}
use food_order_system.Base.Dict
use food_order_system.Base.Dict.{
  Dict, IsDistinct, Absent, IsDistinct-put, IsDistinct-remove, get-put, get-remove,
  Absent-remove_self, get_of_Absent, length-put-le, length-remove-le, length-remove-lt,
  length-put_present,
}
use food_order_system.Base.Dict.{remove_of_Absent}
use food_order_system.Sessions.{SessionStore, expired_ids, remove_all, expired_ref, evict_expired}

abbrev pub is_live : ℕ → SessionStore → String × ℕ → Bool
is_live now s e = not (expired_ref now s (e.1))

module _ (old : ℕ → Bool) where
  Absent-not_expired :
      (d : Dict String ℕ) (k : String) → Absent k d → contains (expired_ids old d) k ≡ false
  unfolding contains expired_ids
  Absent-not_expired [] k a = refl
  Absent-not_expired ((j, r) ∷ d) k a = ground (arith, Absent-not_expired d k a.1)

  remove_all-cons :
      (ids : List String) (j : String) (r : ℕ) (d : Dict String ℕ)
      → contains ids j ≡ false
      → remove_all ids ((j, r) ∷ d) ≡ (j, r) ∷ remove_all ids d
  unfolding contains remove_all Dict.remove
  remove_all-cons [] j r d h = refl
  remove_all-cons (i ∷ ids) j r d h =
      ground (arith, ==_sym i j, remove_all-cons ids j r (Dict.remove d i))

  pub remove_expired :
      (d : Dict String ℕ)
      → IsDistinct d
      → remove_all (expired_ids old d) d ≡ select (λ e. not (old (e.1))) d
  unfolding expired_ids select remove_all Dict.remove
  remove_expired [] h = refl
  remove_expired ((j, r) ∷ d) h = ground (
    arith,
    ==_iff j j,
    remove_of_Absent d j h.0,
    remove_all-cons (expired_ids old d) j r d (Absent-not_expired d j h.0),
    remove_expired d h.1,
  )

  expired_count :
      (d : Dict String ℕ)
      → length (expired_ids old d) + length (select (λ e. not (old (e.1))) d) ≡ length d
  unfolding expired_ids select
  expired_count [] = omega arith
  expired_count ((j, r) ∷ d) = ground (arith, expired_count d)

module _ (p : ℕ → Bool) where
  pub Absent-select :
      (d : Dict String ℕ) (k : String) → Absent k d → Absent k (select (λ e. p (e.1)) d)
  unfolding select
  Absent-select [] k a = tt
  Absent-select ((j, r) ∷ d) k a = ground (arith, Absent-select d k a.1)

  pub IsDistinct-select : (d : Dict String ℕ) → IsDistinct d → IsDistinct (select (λ e. p (e.1)) d)
  unfolding select
  IsDistinct-select [] h = tt
  IsDistinct-select ((j, r) ∷ d) h = ground (arith, Absent-select d j h.0, IsDistinct-select d h.1)

  pub get-select :
      (d : Dict String ℕ) (k : String)
      → IsDistinct d
      → Dict.get (select (λ e. p (e.1)) d) k
        ≡ elim (Dict.get d k) [ none ↦ none | some r ↦ if p r then some r else none ]
  unfolding select Dict.get
  get-select [] k h = refl
  get-select ((j, r) ∷ d) k h = ground (
    arith,
    get-select d k h.1,
    ==_iff j k,
    get_of_Absent (select (λ e. p (e.1)) d) j (Absent-select d j h.0),
  )

-- On a table without a repeated identifier an eviction keeps exactly the sessions that are not expired, in order, touches no object, and
-- returns how many it removed.
pub evict_expired_lem :
    (now : ℕ) (s : SessionStore)
    → IsDistinct s.table
    → ((evict_expired now s).1 ≡ record s { table = select (is_live now s) s.table })
      × ((evict_expired now s).0 + length (evict_expired now s).1.table ≡ length s.table)
unfolding evict_expired
evict_expired_lem now s h =
    let kept = remove_expired (expired_ref now s) s.table h in
    (
      ap (λ (t : Dict String ℕ). record s { table = t }) kept,
      omega (arith, ap length kept, expired_count (expired_ref now s) s.table),
    )
