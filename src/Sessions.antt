-- ===== src/Sessions.antt =====
-- ai_service/src/fos_ai/services/session_store.py: the sessions of the chat agent. The table holds
-- references to session objects, which the handlers of requests share with it; `cell` is where the
-- objects live, and `fresh` the first reference that is not in use. `time.time()` and `uuid4` are
-- arguments.
pub mod Table
pub mod Ownership
pub mod Capacity
mod Tests
use food_order_system.Base.{
  ℕ, suc, ◌+◌, ◌-◌, String, string_eq, Bool, true, false, not, Option, none, some, List, [], ◌∷◌,
  map, if◌then◌else◌, ltb, leb, nat_beq, length, is_blank,
}
use food_order_system.Base.Dict
use food_order_system.Base.Dict.{Dict}
use food_order_system.Schemas.{ChatSession, new_session, touch}

abbrev pub default_ttl_seconds : ℕ
default_ttl_seconds = 1800

abbrev pub default_max_sessions : ℕ
default_max_sessions = 1000

pub record SessionStore : Type 0 where
  pub ttl : ℕ
  pub cap : ℕ
  pub table : Dict String ℕ
  pub cell : ℕ → Option ChatSession
  pub fresh : ℕ

unfoldable pub init : ℕ → ℕ → SessionStore
init ttl cap = record { ttl = ttl; cap = cap; table = []; cell = λ r. none; fresh = 0 }

-- An assignment to the object at `r`.
abbrev pub write : ℕ → ChatSession → SessionStore → SessionStore
write r v s = record s { cell = λ q. if nat_beq q r then some v else s.cell q }

unfoldable pub is_expired : ℕ → SessionStore → ChatSession → Bool
is_expired now s v = ltb s.ttl (now - v.last_active_at)

-- A reference in the table that no object answers is not met by the program; it counts as live.
unfoldable pub expired_ref : ℕ → SessionStore → ℕ → Bool
unfolding is_expired
expired_ref now s r = elim (s.cell r) [ none ↦ false | some v ↦ is_expired now s v ]

-- The loop over `self._sessions.items()`, and the removals that follow it.
unfoldable pub expired_ids : (ℕ → Bool) → Dict String ℕ → List String
expired_ids old [] = []
expired_ids old ((sid, r) ∷ d) = let rest = expired_ids old d in if old r then sid ∷ rest else rest

unfoldable pub remove_all : List String → Dict String ℕ → Dict String ℕ
remove_all [] d = d
remove_all (sid ∷ sids) d = remove_all sids (Dict.remove d sid)

unfoldable pub evict_expired : ℕ → SessionStore → ℕ × SessionStore
unfolding expired_ids remove_all expired_ref
evict_expired now s =
    let expired = expired_ids (expired_ref now s) s.table in
    (length expired, record s { table = remove_all expired s.table })

pub data Created : Type 0 where
  created : ℕ → Created
  store_full : Created

unfoldable pub add : ℕ → String → ℕ → SessionStore → Created × SessionStore
add now id owner s = if leb s.cap (length s.table) then (store_full, s) else (
  created s.fresh,
  record s {
    table = Dict.put s.table id s.fresh;
    cell = λ q. if nat_beq q s.fresh then some (new_session now id owner) else s.cell q;
    fresh = suc s.fresh;
  },
)

unfoldable pub create : ℕ → String → ℕ → SessionStore → Created × SessionStore
create now id owner s = add now id owner (evict_expired now s).1

-- The part of `get` after the session is found.
unfoldable pub check : ℕ → String → ℕ → ℕ → ChatSession → SessionStore → Option ℕ × SessionStore
check now id owner r v s =
    if not (nat_beq v.user_id owner)
    then (none, s)
    else if is_expired now s v
    then (none, record s { table = Dict.remove s.table id })
    else (some r, write r (touch now v) s)

unfoldable pub found :
    ℕ → String → ℕ → ℕ → Option ChatSession → SessionStore → Option ℕ × SessionStore
found now id owner r none s = (none, s)
found now id owner r (some v) s = check now id owner r v s

unfoldable pub get : ℕ → String → ℕ → SessionStore → Option ℕ × SessionStore
unfolding check found
get now id owner s = elim (Dict.get s.table id) [
  | none ↦ (none, s)
  | some r ↦ found now id owner r (s.cell r) s
]

-- An absent and an empty identifier both ask for a new session.
unfoldable pub get_or_create :
    ℕ → Option String → String → ℕ → SessionStore → Created × SessionStore
get_or_create now none uuid owner s = create now uuid owner s
get_or_create now (some id) uuid owner s =
    if is_blank id
    then create now uuid owner s
    else let (existing, s') = get now id owner s in
      elim existing [ some r ↦ (created r, s') | none ↦ create now uuid owner s' ]

-- `save` touches the object, and enters it under its own identifier whether or not the table
-- still has it.
unfoldable pub save : ℕ → ℕ → SessionStore → SessionStore
save now r s = elim (s.cell r) [
  | none ↦ s
  | some v ↦ record (write r (touch now v) s) { table = Dict.put s.table v.session_id r }
]

unfoldable pub delete : String → SessionStore → Bool × SessionStore
delete id s = elim (Dict.get s.table id) [
  | none ↦ (false, s)
  | some r ↦ (true, record s { table = Dict.remove s.table id })
]

-- `__len__` and `__iter__`
unfoldable pub size : SessionStore → ℕ
size s = length s.table

unfoldable pub session_ids : SessionStore → List String
session_ids s = map (λ e. e.0) s.table
