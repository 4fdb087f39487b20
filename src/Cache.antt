-- ===== src/Cache.antt =====
-- ai_service/src/fos_ai/obs/cache.py: the `cached` decorator, a cache bounded in time and in size.
-- The store is an `OrderedDict`, oldest use first. Clock readings are whole ticks. Each of
-- `lookup`, `save` and `clear` is what one acquisition of the lock does; `wrapper` is one call.
pub mod Order
pub mod Bounds
pub mod Transparent
pub mod Recency
mod Tests
use food_order_system.Base.{
  ℕ, ◌+◌, String, string_eq, Bool, true, false, Option, none, some, List, [], ◌∷◌, ◌++◌,
  if◌then◌else◌, ltb, length,
}
use mathlib.Core.Option
use food_order_system.Base.Dict
use food_order_system.Base.Dict.{Dict}
use food_order_system.Base.Outcome.{Outcome, returned, raised}
use food_order_system.Metrics.{Counters, record_cache}

-- `expires_at`, and the value.
abbrev pub Entry : Type 0 → Type 0
Entry V = ℕ × V

-- `store`, `stats`, and the counters of the metrics object.
pub record Cache (V : Type 0) : Type 0 where
  pub store : Dict String (Entry V)
  pub hits : ℕ
  pub misses : ℕ
  pub counters : Counters

pub record CacheInfo : Type 0 where
  pub info_hits : ℕ
  pub info_misses : ℕ
  pub info_maxsize : ℕ
  pub currsize : ℕ
  pub info_ttl_seconds : ℕ

module _ {V : Type 0} where
  -- `store.move_to_end(key)`
  unfoldable pub move_to_end : Dict String V → String → Dict String V
  move_to_end d k = elim (Dict.get d k) [ none ↦ d | some v ↦ Dict.remove d k ++ (k, v) ∷ [] ]

  -- `while len(store) > maxsize: store.popitem(last=False)`
  unfoldable pub evict : ℕ → Dict String V → Dict String V
  evict maxsize [] = []
  evict maxsize (x ∷ xs) =
      let rest = evict maxsize xs in if ltb maxsize (length (x ∷ xs)) then rest else x ∷ xs

module _ {V : Type 0} (ttl_seconds maxsize : ℕ) (namespace : String) where
  -- The first locked region: a live entry is served and becomes the most recent; an expired one
  -- is deleted.
  unfoldable pub lookup : ℕ → String → Cache V → Option V × Cache V
  unfolding move_to_end
  lookup now key c = elim (Dict.get c.store key) [
    | none ↦ (none, c)
    | some (expires_at, value) ↦
        if ltb now expires_at
        then (
          some value,
          record c {
            store = move_to_end c.store key;
            hits = c.hits + 1;
            counters = record_cache namespace true c.counters;
          },
        )
        else (none, record c { store = Dict.remove c.store key })
  ]

  -- The second locked region.
  unfoldable pub save : ℕ → String → V → Cache V → Cache V
  unfolding move_to_end evict
  save now key value c = record c {
    store = evict maxsize (move_to_end (Dict.put c.store key (now + ttl_seconds, value)) key);
    misses = c.misses + 1;
    counters = record_cache namespace false c.counters;
  }

  unfoldable pub clear : Cache V → Cache V
  clear c = record c { store = []; hits = 0; misses = 0 }

  unfoldable pub info : Cache V → CacheInfo
  info c = record {
    info_hits = c.hits;
    info_misses = c.misses;
    info_maxsize = maxsize;
    currsize = length c.store;
    info_ttl_seconds = ttl_seconds;
  }

  -- A miss computes outside the lock; a function that raises leaves the store as `lookup` left it.
  unfoldable pub compute : ℕ → String → Outcome V → Cache V → Outcome V × Cache V
  compute now key (returned value) c = (returned value, save now key value c)
  compute now key (raised e) c = (raised e, c)

  module _ {A : Type 0} (raw_key : A → Option String) (sha256 : String → String)
      (func : A → Outcome V) where
    -- `repr` of the arguments may raise.
    unfoldable pub key_of : A → Option String
    key_of args = Option.map sha256 (raw_key args)

    unfoldable pub keyed_call : ℕ → ℕ → A → String → Cache V → Outcome V × Cache V
    unfolding compute
    keyed_call start finish args key c =
        let (found, c') = lookup start key c in
        elim found [ some value ↦ (returned value, c') | none ↦ compute finish key (func args) c' ]

    -- One call, with the clock when it starts and when the function has returned.
    unfoldable pub wrapper : ℕ → ℕ → A → Cache V → Outcome V × Cache V
    unfolding key_of keyed_call
    wrapper start finish args c = elim (key_of args) [
      | none ↦ (func args, c)
      | some key ↦ keyed_call start finish args key c
    ]
