-- ===== src/Sessions/Ownership.antt =====
-- A session is only ever handed to the user who owns it.
use food_order_system.Base.{
  ℕ, ◌≡◌, ◌≢◌, ◌↔◌, ap, ◌∙◌, String, string_eq, false, Option, none, some, arith, Option-cases,
  Bool-cases, inl, inr, is_blank, nat_beq_iff,
}
use food_order_system.Base.Dict
use food_order_system.Base.Dict.{
  Dict, IsDistinct, Absent, IsDistinct-put, IsDistinct-remove, get-put, get-remove,
  Absent-remove_self, get_of_Absent, length-put-le, length-remove-le, length-remove-lt,
  length-put_present,
}
use food_order_system.Schemas.{ChatSession, new_session, touch}
use food_order_system.Sessions.{
  SessionStore, created, is_expired, add, create, get, found, get_or_create,
}

-- `v` is the object at `r`.
abbrev pub Holds : SessionStore → ℕ → ChatSession → Type 0
Holds s r v = s.cell r ≡ some v

abbrev pub Served : ℕ → String → ℕ → ℕ → SessionStore → Type 0
Served now id owner r s =
    (v : ChatSession) × (Dict.get s.table id ≡ some r)
    × Holds s r v
    × (v.user_id ≡ owner)
    × (is_expired now s v ≡ false)

get-Served :
    (now : ℕ) (id : String) (owner r : ℕ) (s : SessionStore)
    → (get now id owner s).0 ≡ some r
    → Served now id owner r s
unfolding get
get-Served now id owner r s h = elim (Option-cases (Dict.get s.table id)) [
  | inl miss ↦ absurd (ground arith)
  | inr (q, there) ↦ elim (Option-cases (s.cell q)) [
    | inl gone ↦ absurd (ground arith)
    | inr (v, here) ↦ (v, ground arith, ground arith, ground arith, ground arith)
  ]
]

Served-get :
    (now : ℕ) (id : String) (owner r : ℕ) (s : SessionStore)
    → Served now id owner r s
    → (get now id owner s).0 ≡ some r
unfolding get
Served-get now id owner r s (v, there, here, own, live) = ground arith

-- A session is found exactly when the table has it, the caller owns it and it has not expired.
pub get_iff :
    (now : ℕ) (id : String) (owner r : ℕ) (s : SessionStore)
    → ((get now id owner s).0 ≡ some r) ↔ Served now id owner r s
get_iff now id owner r s = (get-Served now id owner r s, Served-get now id owner r s)

-- A request for another user's session changes nothing and finds nothing, expired or not.
pub get_foreign :
    (now : ℕ) (id : String) (owner r : ℕ) (s : SessionStore) (v : ChatSession)
    → Dict.get s.table id ≡ some r
    → Holds s r v
    → v.user_id ≢ owner
    → get now id owner s ≡ (none, s)
unfolding get
get_foreign now id owner r s v there here foreign =
    rw (there, get) (rw (here, found) (ground arith))

abbrev Owned : ℕ → ℕ → ℕ → SessionStore → Type 0
Owned now owner r s =
    (v : ChatSession) × Holds s r v × (v.user_id ≡ owner) × (v.last_active_at ≡ now)

get-Owned :
    (now : ℕ) (id : String) (owner r : ℕ) (s : SessionStore)
    → (get now id owner s).0 ≡ some r
    → Owned now owner r (get now id owner s).1
unfolding get touch
get-Owned now id owner r s h =
    let (v, there, here, own, live) = get-Served now id owner r s h in
    (touch now v, ground (arith, nat_beq_iff r r), ground arith, ground arith)

create-Owned :
    (now : ℕ) (uuid : String) (owner r : ℕ) (s : SessionStore)
    → (create now uuid owner s).0 ≡ created r
    → Owned now owner r (create now uuid owner s).1
unfolding create add new_session
create-Owned now uuid owner r s h =
    (new_session now uuid owner, ground arith, ground arith, ground arith)

-- Whatever the client asks for, the session it is given is its own and was just used.
pub get_or_create_owned :
    (now : ℕ) (id : Option String) (uuid : String) (owner r : ℕ) (s : SessionStore)
    → (get_or_create now id uuid owner s).0 ≡ created r
    → (v : ChatSession) × Holds (get_or_create now id uuid owner s).1 r v
      × (v.user_id ≡ owner)
      × (v.last_active_at ≡ now)
unfolding get_or_create
get_or_create_owned now none uuid owner r s h = create-Owned now uuid owner r s h
get_or_create_owned now (some id) uuid owner r s h = elim (Bool-cases (is_blank id)) [
  | inl blank ↦
      let e : get_or_create now (some id) uuid owner s ≡ create now uuid owner s = rw blank in
      rw e (create-Owned now uuid owner r s (rw e at h))
  | inr given ↦ elim (Option-cases (get now id owner s).0) [
    | inl miss ↦
        let e : get_or_create now (some id) uuid owner s
            ≡ create now uuid owner (get now id owner s).1 =
          ground arith in
        rw e (create-Owned now uuid owner r (get now id owner s).1 (rw e at h))
    | inr (q, hit) ↦
        let e : get_or_create now (some id) uuid owner s ≡ (created q, (get now id owner s).1) =
          ground arith in
        let same : q ≡ r = ground arith in rw e (get-Owned now id owner r s (hit ∙ ap some same))
  ]
]
