-- ===== src/Cache/Recency.antt =====
-- What is evicted is what was used least recently.
use food_order_system.Base.{
  ℕ, suc, ◌+◌, ◌-◌, ◌≡◌, refl, sym, ap, ◌∙◌, String, string_eq, none, some, List, [], ◌∷◌, ◌++◌,
  arith, map, if◌then◌else◌, ltb, length, drop, Option-cases, inl, inr, ==_iff, ◌==◌, newest,
  newest_nil, newest_of_le, Bool-cases,
}
use mathlib.Core.List.{map-append}
use food_order_system.Base.Dict
use food_order_system.Base.Dict.{Dict, get-put}
use food_order_system.Cache.{Cache, Entry, move_to_end, evict, lookup, save}

abbrev pub keys {ℓ κ} : {K : Type ℓ} {V : Type κ} → Dict K V → List K
keys = map (λ e. e.0)

-- The keys other than `k`, in order.
abbrev pub without : String → List String → List String
without k [] = []
without k (j ∷ js) = let rest = without k js in if j == k then rest else j ∷ rest

module _ {V : Type 0} where
  length-keys : (d : Dict String V) → length (keys d) ≡ length d
  length-keys [] = refl
  length-keys (x ∷ xs) = ap suc (length-keys xs)

  -- Popping from the front while the store is too large keeps its last `n` keys.
  keys-evict : (n : ℕ) (d : Dict String V) → keys (evict n d) ≡ newest n (keys d)
  unfolding evict newest drop
  keys-evict n [] = newest_nil n
  keys-evict n (x ∷ xs) = elim (Bool-cases (ltb n (suc (length xs)))) [
    | inl over ↦
        let e : suc (length (keys xs)) - n ≡ suc (length (keys xs) - n) =
          ground (arith, length-keys xs) in
        rw (over, evict) (keys-evict n xs ∙ ap (λ m. drop m (x.0 ∷ keys xs)) (sym e))
    | inr fits ↦
        rw (fits, evict) (sym (newest_of_le n (keys (x ∷ xs)) (ground (arith, length-keys xs))))
  ]

  keys-remove : (d : Dict String V) (k : String) → keys (Dict.remove d k) ≡ without k (keys d)
  unfolding Dict.remove
  keys-remove [] k = refl
  keys-remove ((j, v) ∷ d) k = ground (arith, keys-remove d k)

  without-put :
      (d : Dict String V) (k : String) (v : V)
      → without k (keys (Dict.put d k v)) ≡ without k (keys d)
  unfolding Dict.put
  without-put [] k v = ground (arith, ==_iff k k)
  without-put ((j, w) ∷ d) k v = ground (arith, without-put d k v)

module _ {V : Type 0} (ttl maxsize : ℕ) (ns : String) (now : ℕ) (key : String) (c : Cache V) where
  keys-moved :
      (d : Dict String (Entry V)) (e : Entry V)
      → Dict.get d key ≡ some e
      → keys (move_to_end d key) ≡ without key (keys d) ++ key ∷ []
  unfolding move_to_end
  keys-moved d e h =
      rw (h, move_to_end)
        (map-append (λ x. x.0) (Dict.remove d key) ((key, e) ∷ [])
          ∙ ap (λ l. l ++ key ∷ []) (keys-remove d key))

  -- The store lists its keys by their last use. Saving puts the key last and then keeps the last
  -- `maxsize` keys, so the least recently used are evicted; serving a live entry puts its key last
  -- and evicts nothing; and a lookup that serves nothing drops at most the key that it looked for.
  pub keys_by_use :
      (value : V)
      → (keys (save ttl maxsize ns now key value c).store
          ≡ newest maxsize (without key (keys c.store) ++ key ∷ []))
        × (keys (lookup ttl maxsize ns now key c).1.store ≡ elim (Dict.get c.store key) [
          | none ↦ keys c.store
          | some (t, v) ↦
              if ltb now t
              then without key (keys c.store) ++ key ∷ []
              else without key (keys c.store)
        ])
  unfolding save lookup
  keys_by_use value =
      let e : Entry V = (now + ttl, value) in
      let d = Dict.put c.store key e in
      let there : Dict.get d key ≡ some e =
        ground (arith, get-put c.store key key e, ==_iff key key) in
      let moved : keys (move_to_end d key) ≡ without key (keys c.store) ++ key ∷ [] =
        keys-moved d e there ∙ ap (λ l. l ++ key ∷ []) (without-put c.store key e) in
      (
        keys-evict maxsize (move_to_end d key) ∙ ap (newest maxsize) moved,
        elim (Option-cases (Dict.get c.store key)) [
          | inl miss ↦ rw (miss, lookup)
          | inr (x, hit) ↦ ground (arith, keys-moved c.store x hit, keys-remove c.store key)
        ],
      )
