-- ===== src/Cache/Tests.antt =====
-- A cache of two entries over a function that fails once: the theorems on
-- ai_service/src/fos_ai/obs/cache.py at it.
use food_order_system.Base.{
  ℕ, ◌≡◌, String, string_eq, some, List, [], ◌∷◌, arith, if◌then◌else◌, ◌==◌, newest,
}
use food_order_system.Base.Dict
use food_order_system.Base.Outcome.{Outcome, returned, raised}
use food_order_system.Cache.{Cache, lookup, save}
use food_order_system.Cache.Bounds.{IsValid, Reach-IsValid, next, here, saved}
use food_order_system.Cache.Transparent.{IsSound, lookup-save, call_all, call_all-eq-map}
use food_order_system.Cache.Recency.{keys, keys_by_use}

abbrev empty : Cache ℕ
empty = record { store = []; hits = 0; misses = 0; counters = [] }

abbrev two : Cache ℕ
two = record { store = ("a", (50, 1)) ∷ ("b", (60, 2)) ∷ []; hits = 0; misses = 2; counters = [] }

abbrev func : String → Outcome ℕ
func s = if s == "a" then returned 1 else raised "no such thing"

abbrev calls : List (ℕ × ℕ × String)
calls = (1, 2, "a") ∷ (3, 4, "b") ∷ (5, 6, "a") ∷ []

same_hash : (s t : String) → s ≡ t → s ≡ t
same_hash s t e = e

same_raw : (a b r : String) → some a ≡ some r → some b ≡ some r → a ≡ b
same_raw a b r p q = ground arith

empty-IsSound : IsSound 10 2 "ns" (λ a. some a) (λ s. s) func same_hash same_raw empty
unfolding Dict.get
empty-IsSound = record { distinct = tt; sound = λ a k e p h. absurd (ground arith) }

call_all_example :
    call_all 10 2 "ns" (λ a. some a) (λ s. s) func same_hash same_raw calls empty
    ≡ returned 1 ∷ raised "no such thing" ∷ returned 1 ∷ []
call_all_example =
    call_all-eq-map 10 2 "ns" (λ a. some a) (λ s. s) func same_hash same_raw calls empty
      empty-IsSound

lookup-save_example : (lookup 10 2 "ns" 11 "a" (save 10 2 "ns" 2 "a" 1 empty)).0 ≡ some 1
lookup-save_example = lookup-save 10 2 "ns" 2 11 "a" 1 empty (omega arith)

Reach-IsValid_example : IsValid 1 (save 10 1 "ns" 5 "a" 1 empty)
Reach-IsValid_example =
    Reach-IsValid 10 1 "ns" (next here (saved 5 "a" 1 empty))
      (record { bounded = omega arith; distinct = tt })

keys_by_use_example :
    (keys (save 10 2 "ns" 5 "c" 3 two).store ≡ newest 2 ("a" ∷ "b" ∷ "c" ∷ []))
    × (keys (lookup 10 2 "ns" 5 "c" two).1.store ≡ "a" ∷ "b" ∷ [])
unfolding Dict.get
keys_by_use_example = keys_by_use 10 2 "ns" 5 "c" two 3
