-- ===== src/Cache/Bounds.antt =====
-- The store never outgrows `maxsize` and never holds a key twice, however calls interleave.
use food_order_system.Base.{ℕ, ◌+◌, ◌≤◌, String, string_eq, arith, length}
use food_order_system.Base.Dict
use food_order_system.Base.Dict.{
  Dict, IsDistinct, Absent, IsDistinct-put, IsDistinct-remove, IsDistinct-append,
  Absent-remove_self, length-remove-le, length-put-le,
}
use food_order_system.Cache.Order.{
  length-evict-le, IsDistinct-evict, IsDistinct-move_to_end, length-move_to_end-le,
}
use food_order_system.Cache.{Cache, move_to_end, lookup, save, clear}

pub record IsValid {V : Type 0} (maxsize : ℕ) (c : Cache V) : Type 0 where
  pub bounded : length c.store ≤ maxsize
  pub distinct : IsDistinct c.store

module _ {V : Type 0} (ttl maxsize : ℕ) (ns : String) where
  pub lookup-IsValid :
      (now : ℕ) (key : String) (c : Cache V)
      → IsValid maxsize c
      → IsValid maxsize (lookup ttl maxsize ns now key c).1
  unfolding lookup
  lookup-IsValid now key c v = ground (
    arith,
    IsDistinct-move_to_end c.store key v.distinct,
    IsDistinct-remove c.store key v.distinct,
    length-remove-le c.store key,
    length-move_to_end-le c.store key,
  )

  pub save-IsValid :
      (now : ℕ) (key : String) (value : V) (c : Cache V)
      → IsValid maxsize c
      → IsValid maxsize (save ttl maxsize ns now key value c)
  unfolding save
  save-IsValid now key value c v =
      let d = Dict.put c.store key (now + ttl, value) in
      record {
        bounded = length-evict-le maxsize (move_to_end d key);
        distinct = IsDistinct-evict maxsize (move_to_end d key) (
            IsDistinct-move_to_end d key
              (IsDistinct-put c.store key (now + ttl, value) v.distinct));
      }

  clear-IsValid : (c : Cache V) → IsValid maxsize (clear ttl maxsize ns c)
  unfolding clear
  clear-IsValid c = record { bounded = omega arith; distinct = tt }

  -- What the threads that share a cache may do, one lock acquisition at a time.
  pub data Step : Cache V → Cache V → Type 0 where
    looked_up : (now : ℕ) (key : String) (c : Cache V) → Step c (lookup ttl maxsize ns now key c).1
    saved :
        (now : ℕ) (key : String) (value : V) (c : Cache V)
        → Step c (save ttl maxsize ns now key value c)
    cleared : (c : Cache V) → Step c (clear ttl maxsize ns c)

  pub data Reach (c : Cache V) : Cache V → Type 0 where
    here : Reach c c
    next : {d e : Cache V} → Reach c d → Step d e → Reach c e

  Step-IsValid : {c d : Cache V} → Step c d → IsValid maxsize c → IsValid maxsize d
  Step-IsValid (looked_up now key c) v = lookup-IsValid now key c v
  Step-IsValid (saved now key value c) v = save-IsValid now key value c v
  Step-IsValid (cleared c) v = clear-IsValid c

  -- However the locked regions of concurrent calls interleave, a cache that starts valid has at
  -- most `maxsize` entries and no key twice.
  pub Reach-IsValid : {c d : Cache V} → Reach c d → IsValid maxsize c → IsValid maxsize d
  Reach-IsValid here v = v
  Reach-IsValid (next r st) v = Step-IsValid st (Reach-IsValid r v)
