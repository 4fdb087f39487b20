-- ===== src/Cache/Transparent.antt =====
-- A cached function returns what the function itself returns.
use food_order_system.Base.{
  ℕ, ◌+◌, ◌<◌, ◌≡◌, refl, sym, ap, ◌∙◌, String, string_eq, Option, none, some, List, [], ◌∷◌, arith,
  map, if◌then◌else◌, ltb, Option-cases, inl, inr, ==_iff, ◌==◌, Bool-cases,
}
use mathlib.Core.Path.{ap₂}
use food_order_system.Base.Outcome.{Outcome, returned, raised}
use food_order_system.Base.Dict
use food_order_system.Base.Dict.{
  Dict, IsDistinct, IsDistinct-put, IsDistinct-remove, get-put, get-remove, Absent-remove_self,
}
use food_order_system.Cache.{
  Cache, Entry, move_to_end, lookup, save, compute, key_of, keyed_call, wrapper,
}
use food_order_system.Cache.Order.{
  IsDistinct-evict, IsDistinct-move_to_end, get-move_to_end, get-evict, get-evict_last,
}

module _ {V : Type 0} (ttl maxsize : ℕ) (ns : String) where
  -- In a cache with room for an entry, a value that was saved is served until its time is up, and
  -- not afterwards.
  pub lookup-save :
      (now later : ℕ) (key : String) (value : V) (c : Cache V)
      → 0 < maxsize
      → (lookup ttl maxsize ns later key (save ttl maxsize ns now key value c)).0
        ≡ (if ltb later (now + ttl) then some value else none)
  unfolding lookup save move_to_end
  lookup-save now later key value c room = ground (
    arith,
    get-put c.store key key (now + ttl, value),
    ==_iff key key,
    get-evict_last maxsize (Dict.remove (Dict.put c.store key (now + ttl, value)) key) key
        (now + ttl, value) room (Absent-remove_self (Dict.put c.store key (now + ttl, value)) key),
  )

module _ {V A : Type 0} (ttl maxsize : ℕ) (ns : String) (raw_key : A → Option String)
    (sha256 : String → String) (func : A → Outcome V)
    (sha256_injective : (s t : String) → sha256 s ≡ sha256 t → s ≡ t)
    (repr_faithful : (a b : A) (r : String) → raw_key a ≡ some r → raw_key b ≡ some r → a ≡ b) where
  -- Every stored value is what the function returns for the arguments with that key.
  pub record IsSound (c : Cache V) : Type 0 where
    pub distinct : IsDistinct c.store
    pub sound :
        (a : A) (k : String) (e : Entry V)
        → key_of ttl maxsize ns raw_key sha256 func a ≡ some k
        → Dict.get c.store k ≡ some e
        → func a ≡ returned (e.1)

  same_key :
      (a b : A) (k : String)
      → key_of ttl maxsize ns raw_key sha256 func a ≡ some k
      → key_of ttl maxsize ns raw_key sha256 func b ≡ some k
      → a ≡ b
  unfolding key_of
  same_key a b k p q = elim (Option-cases (raw_key a)) [
    | inl e ↦ absurd (ground arith)
    | inr (r, e) ↦ elim (Option-cases (raw_key b)) [
      | inl f ↦ absurd (ground arith)
      | inr (t, f) ↦
          let hash : sha256 t ≡ sha256 r = ground arith in
          let raw : t ≡ r = sha256_injective t r hash in repr_faithful a b r e (f ∙ ap some raw)
    ]
  ]

  lookup-IsSound :
      (now : ℕ) (key : String) (c : Cache V)
      → IsSound c
      → IsSound (lookup ttl maxsize ns now key c).1
  unfolding lookup
  lookup-IsSound now key c s = record {
    distinct = ground (
      arith,
      s.distinct,
      IsDistinct-move_to_end c.store key s.distinct,
      IsDistinct-remove c.store key s.distinct,
    );
    sound = λ a k e p h.
        s.sound a k e p (ground (arith, get-move_to_end c.store key k, get-remove c.store key k));
  }

  save-IsSound :
      (now : ℕ) (a : A) (key : String) (value : V) (c : Cache V)
      → key_of ttl maxsize ns raw_key sha256 func a ≡ some key
      → func a ≡ returned value
      → IsSound c
      → IsSound (save ttl maxsize ns now key value c)
  unfolding save
  save-IsSound now a key value c p f s =
      let d = Dict.put c.store key (now + ttl, value) in
      let dd =
        IsDistinct-move_to_end d key (IsDistinct-put c.store key (now + ttl, value) s.distinct) in
      record {
        distinct = IsDistinct-evict maxsize (move_to_end d key) dd;
        sound = λ b k e q h.
            let there : Dict.get d k ≡ some e =
              sym (get-move_to_end d key k) ∙ get-evict maxsize (move_to_end d key) k e dd h in
            elim (Bool-cases (key == k)) [
              | inl same ↦
                  let keys : key ≡ k = (==_iff key k).0 same in
                  let args : b ≡ a = same_key b a key (q ∙ ap some (sym keys)) p in
                  ground (arith, ap func args, get-put c.store key k (now + ttl, value))
              | inr other ↦
                  s.sound b k e q (ground (arith, get-put c.store key k (now + ttl, value)))
            ];
      }

  lookup_found :
      (now : ℕ) (key : String) (c : Cache V) (v : V)
      → (lookup ttl maxsize ns now key c).0 ≡ some v
      → (t : ℕ) × (Dict.get c.store key ≡ some (t, v))
  unfolding lookup
  lookup_found now key c v h = elim (Option-cases (Dict.get c.store key)) [
    | inl e ↦ absurd (ground arith)
    | inr (x, e) ↦ (x.0, ground arith)
  ]

  keyed_call-eq-func :
      (start finish : ℕ) (a : A) (key : String) (c : Cache V)
      → key_of ttl maxsize ns raw_key sha256 func a ≡ some key
      → IsSound c
      → ((keyed_call ttl maxsize ns raw_key sha256 func start finish a key c).0 ≡ func a)
        × IsSound (keyed_call ttl maxsize ns raw_key sha256 func start finish a key c).1
  unfolding keyed_call compute
  keyed_call-eq-func start finish a key c p s =
      let s' = lookup-IsSound start key c s in
      elim (Option-cases (lookup ttl maxsize ns start key c).0) [
        | inr (v, hit) ↦
            let (t, there) = lookup_found start key c v hit in
            rw (hit, keyed_call) (sym (s.sound a key (t, v) p there), s')
        | inl miss ↦ rw (miss, keyed_call) (computed (func a) refl s')
      ]
    where
      computed :
          (o : Outcome V)
          → func a ≡ o
          → IsSound (lookup ttl maxsize ns start key c).1
          → ((compute ttl maxsize ns finish key o (lookup ttl maxsize ns start key c).1).0 ≡ o)
            × IsSound (compute ttl maxsize ns finish key o (lookup ttl maxsize ns start key c).1).1
      computed (returned v) f s' =
          (refl, save-IsSound finish a key v (lookup ttl maxsize ns start key c).1 p f s')
      computed (raised e) f s' = (refl, s')

  wrapper-eq-func :
      (start finish : ℕ) (a : A) (c : Cache V)
      → IsSound c
      → ((wrapper ttl maxsize ns raw_key sha256 func start finish a c).0 ≡ func a)
        × IsSound (wrapper ttl maxsize ns raw_key sha256 func start finish a c).1
  unfolding wrapper
  wrapper-eq-func start finish a c s =
      elim (Option-cases (key_of ttl maxsize ns raw_key sha256 func a)) [
        | inl e ↦ rw (e, wrapper) (refl, s)
        | inr (k, e) ↦ rw (e, wrapper) (keyed_call-eq-func start finish a k c e s)
      ]

  -- A series of calls, each with its two clock readings.
  unfoldable pub call_all : List (ℕ × ℕ × A) → Cache V → List (Outcome V)
  call_all [] c = []
  call_all ((start, finish, a) ∷ calls) c =
      let (o, c') = wrapper ttl maxsize ns raw_key sha256 func start finish a c in
      o ∷ call_all calls c'

  -- Whatever was called before, at whatever times, on a sound cache every call of a pure function
  -- gives what the function itself gives, exceptions included. It is assumed that sha256 has no
  -- collision and that equal `repr`s are of equal arguments.
  pub call_all-eq-map :
      (calls : List (ℕ × ℕ × A)) (c : Cache V)
      → IsSound c
      → call_all calls c ≡ map (λ call. func (call.2)) calls
  unfolding call_all
  call_all-eq-map [] c s = refl
  call_all-eq-map ((start, finish, a) ∷ calls) c s =
      let (same, s') = wrapper-eq-func start finish a c s in
      ap₂ (λ o os. o ∷ os) same
        (call_all-eq-map calls (wrapper ttl maxsize ns raw_key sha256 func start finish a c).1 s')
