-- ===== src/Sessions/Capacity.antt =====
-- The store's invariant, and who may pass its capacity.
use food_order_system.Base.{
  ℕ, suc, ◌≤◌, ◌<◌, ◌≡◌, ◌↔◌, ap, String, string_eq, not, none, some, arith, leb, nat_beq, length,
  select, length-select-le, Option-cases, Bool-cases, inl, inr, ==_iff, ◌==◌, nat_beq_iff,
}
use food_order_system.Base.Dict
use food_order_system.Base.Dict.{
  Dict, IsDistinct, Absent, IsDistinct-put, IsDistinct-remove, get-put, get-remove, length-put-le,
  length-remove-le, length-put_present, length-put_absent,
}
use food_order_system.Schemas.{ChatSession, new_session, touch}
use food_order_system.Sessions.{
  SessionStore, store_full, expired_ref, evict_expired, add, create, get, found, save, delete,
  write, init,
}
use food_order_system.Sessions.Table.{is_live, evict_expired_lem, IsDistinct-select, get-select}
use food_order_system.Sessions.Ownership.{Holds}

-- The table is within its capacity, holds no identifier twice, and every entry refers to an object
-- in use that has the entry's identifier.
pub record IsValid (s : SessionStore) : Type 0 where
  pub bounded : length s.table ≤ s.cap
  pub distinct : IsDistinct s.table
  pub refers :
      (id : String) (r : ℕ)
      → Dict.get s.table id ≡ some r
      → (v : ChatSession) × Holds s r v × (v.session_id ≡ id) × (r < s.fresh)

-- Taking entries out of the table keeps the invariant.
narrow-IsValid :
    (s : SessionStore) (t : Dict String ℕ)
    → IsValid s
    → length t ≤ length s.table
    → IsDistinct t
    → ((id : String) (r : ℕ) → Dict.get t id ≡ some r → Dict.get s.table id ≡ some r)
    → IsValid (record s { table = t })
narrow-IsValid s t v shorter d sub = record {
  bounded = omega (arith, v.bounded);
  distinct = d;
  refers = λ id r h. v.refers id r (sub id r h);
}

remove-IsValid :
    (s : SessionStore) (id : String)
    → IsValid s
    → IsValid (record s { table = Dict.remove s.table id })
remove-IsValid s id v =
    narrow-IsValid s (Dict.remove s.table id) v (length-remove-le s.table id)
      (IsDistinct-remove s.table id v.distinct) (λ j r h. ground (arith, get-remove s.table id j))

touch-IsValid :
    (now r : ℕ) (v : ChatSession) (s : SessionStore)
    → Holds s r v
    → IsValid s
    → IsValid (write r (touch now v) s)
unfolding touch
touch-IsValid now r v s here valid = record {
  bounded = valid.bounded;
  distinct = valid.distinct;
  refers = λ id q h. elim (Bool-cases (nat_beq q r)) [
    | inl same ↦
        let (w, holds, named, below) = valid.refers id q h in
        (touch now v, ground arith, ground (arith, ap s.cell ((nat_beq_iff q r).0 same)), below)
    | inr other ↦
        let (w, holds, named, below) = valid.refers id q h in (w, ground arith, named, below)
  ];
}

pub evict-IsValid : (now : ℕ) (s : SessionStore) → IsValid s → IsValid (evict_expired now s).1
evict-IsValid now s v = rw ((evict_expired_lem now s v.distinct).0) (
    narrow-IsValid s (select (is_live now s) s.table) v (length-select-le (is_live now s) s.table)
      (IsDistinct-select (λ r. not (expired_ref now s r)) s.table v.distinct)
      (λ id r h. ground (arith, get-select (λ q. not (expired_ref now s q)) s.table id v.distinct)))

add-IsValid :
    (now : ℕ) (uuid : String) (owner : ℕ) (s : SessionStore)
    → IsValid s
    → IsValid (add now uuid owner s).1
unfolding add new_session
add-IsValid now uuid owner s v = elim (Bool-cases (leb s.cap (length s.table))) [
  | inl full ↦ rw (full, add) v
  | inr room ↦
      rw (room, add)
        (record {
          bounded = ground (arith, v.bounded, length-put-le s.table uuid s.fresh);
          distinct = IsDistinct-put s.table uuid s.fresh v.distinct;
          refers = λ id r h. elim (Bool-cases (uuid == id)) [
            | inl same ↦
                let e : s.fresh ≡ r = ground (arith, get-put s.table uuid id s.fresh) in
                (
                  new_session now uuid owner,
                  ground (arith, nat_beq_iff r s.fresh),
                  (==_iff uuid id).0 same,
                  omega (arith, e),
                )
            | inr other ↦
                let (w, holds, named, below) =
                  v.refers id r (ground (arith, get-put s.table uuid id s.fresh)) in
                (w, ground (arith, nat_beq_iff r s.fresh), named, omega (arith, below))
          ];
        })
]

pub create-IsValid :
    (now : ℕ) (uuid : String) (owner : ℕ) (s : SessionStore)
    → IsValid s
    → IsValid (create now uuid owner s).1
unfolding create
create-IsValid now uuid owner s v =
    add-IsValid now uuid owner (evict_expired now s).1 (evict-IsValid now s v)

pub get-IsValid :
    (now : ℕ) (id : String) (owner : ℕ) (s : SessionStore)
    → IsValid s
    → IsValid (get now id owner s).1
unfolding get
get-IsValid now id owner s v = elim (Option-cases (Dict.get s.table id)) [
  | inl miss ↦ rw (miss, get) v
  | inr (r, there) ↦ elim (Option-cases (s.cell r)) [
    | inl gone ↦ rw (there, get) (rw (gone, found) v)
    | inr (w, here) ↦
        rw (there, get)
          (rw (here, found)
            (ground (arith, v, remove-IsValid s id v, touch-IsValid now r w s here v)))
  ]
]

pub delete-IsValid : (id : String) (s : SessionStore) → IsValid s → IsValid (delete id s).1
unfolding delete
delete-IsValid id s v = ground (arith, v, remove-IsValid s id v)

save-IsValid :
    (now r : ℕ) (v : ChatSession) (s : SessionStore)
    → Holds s r v
    → Dict.get s.table v.session_id ≡ some r
    → IsValid s
    → IsValid (save now r s)
unfolding save
save-IsValid now r v s here there valid =
    let t = touch-IsValid now r v s here valid in
    rw (here, save)
      (record {
        bounded = omega (arith, valid.bounded, length-put_present s.table v.session_id r r there);
        distinct = IsDistinct-put s.table v.session_id r valid.distinct;
        refers = λ id q h. t.refers id q (
            ground (
              arith,
              get-put s.table v.session_id id r,
              ==_iff v.session_id id,
              ap (Dict.get s.table),
            ));
      })

-- What a client of the store may call. Saving is for a session that the table still has.
pub data Step : SessionStore → SessionStore → Type 0 where
  evicted : (now : ℕ) (s : SessionStore) → Step s (evict_expired now s).1
  creation :
      (now : ℕ) (uuid : String) (owner : ℕ) (s : SessionStore) → Step s (create now uuid owner s).1
  fetched : (now : ℕ) (id : String) (owner : ℕ) (s : SessionStore) → Step s (get now id owner s).1
  deleted : (id : String) (s : SessionStore) → Step s (delete id s).1
  saved :
      (now r : ℕ) (v : ChatSession) (s : SessionStore)
      → Holds s r v
      → Dict.get s.table v.session_id ≡ some r
      → Step s (save now r s)

pub data Reach (s : SessionStore) : SessionStore → Type 0 where
  here : Reach s s
  next : {t u : SessionStore} → Reach s t → Step t u → Reach s u

Step-IsValid : {s t : SessionStore} → Step s t → IsValid s → IsValid t
Step-IsValid (evicted now s) v = evict-IsValid now s v
Step-IsValid (creation now uuid owner s) v = create-IsValid now uuid owner s v
Step-IsValid (fetched now id owner s) v = get-IsValid now id owner s v
Step-IsValid (deleted id s) v = delete-IsValid id s v
Step-IsValid (saved now r w s holds there) v = save-IsValid now r w s holds there v

init-IsValid : (ttl cap : ℕ) → IsValid (init ttl cap)
unfolding init Dict.get
init-IsValid ttl cap = record {
  bounded = omega arith;
  distinct = tt;
  refers = λ id r h. absurd (ground arith);
}

Reach-IsValid : {s t : SessionStore} → Reach s t → IsValid s → IsValid t
Reach-IsValid here v = v
Reach-IsValid (next r st) v = Step-IsValid st (Reach-IsValid r v)

-- In every state that a new store reaches by any calls, where a session is only saved while the
-- table still has it, the table is within capacity, has no identifier twice, and every entry refers
-- to an object with that identifier.
pub reachable-IsValid : (ttl cap : ℕ) {s : SessionStore} → Reach (init ttl cap) s → IsValid s
reachable-IsValid ttl cap r = Reach-IsValid r (init-IsValid ttl cap)

-- With no identifier repeated in the table, a new session is refused exactly when the sessions that have not expired fill the store.
pub create-full_iff :
    (now : ℕ) (uuid : String) (owner : ℕ) (s : SessionStore)
    → IsDistinct s.table
    → ((create now uuid owner s).0 ≡ store_full) ↔ (s.cap ≤ length (select (is_live now s) s.table))
unfolding create add
create-full_iff now uuid owner s d = rw ((evict_expired_lem now s d).0) (ground arith)

-- A save of a session that an eviction has removed meanwhile enters it again without a test of the
-- capacity: on a full store the table outgrows its capacity by one.
pub save-exceeds_cap :
    (now r : ℕ) (v : ChatSession) (s : SessionStore)
    → Holds s r v
    → Dict.get s.table v.session_id ≡ none
    → length s.table ≡ s.cap
    → length (save now r s).table ≡ suc (save now r s).cap
unfolding save
save-exceeds_cap now r v s holds gone full =
    rw (holds, save) (omega (arith, full, length-put_absent s.table v.session_id r gone))
