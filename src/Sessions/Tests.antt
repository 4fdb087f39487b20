-- ===== src/Sessions/Tests.antt =====
-- A store with one session, and one that is full: the theorems on ai_service/src/fos_ai/services/session_store.py
-- at these.
use food_order_system.Base.{
  suc, ◌+◌, ◌≤◌, ◌≡◌, ◌↔◌, refl, string_eq, none, some, [], ◌∷◌, if◌then◌else◌, nat_beq, is_blank,
  length, select,
}
use food_order_system.Base.Dict
use food_order_system.Schemas.{ChatSession}
use food_order_system.Sessions.{
  SessionStore, store_full, is_expired, init, evict_expired, create, get, get_or_create, save,
}
use food_order_system.Sessions.Table.{is_live, evict_expired_lem}
use food_order_system.Sessions.Ownership.{Served, Holds, get_iff, get_or_create_owned}
use food_order_system.Sessions.Capacity.{
  IsValid, next, here, creation, reachable-IsValid, create-full_iff, save-exceeds_cap,
}

abbrev alice : ChatSession
alice = record {
  session_id = "s1";
  user_id = 1;
  messages = [];
  created_at = 0;
  last_active_at = 100;
}

abbrev store : SessionStore
store = record {
  ttl = 10;
  cap = 1;
  table = ("s1", 0) ∷ [];
  cell = λ q. if nat_beq q 0 then some alice else none;
  fresh = 1;
}

-- The table after `alice` was evicted and another session took her place.
abbrev later : SessionStore
later = record store { table = ("s2", 1) ∷ []; fresh = 2 }

get_iff_example : ((get 105 "s1" 1 store).0 ≡ some 0) ↔ Served 105 "s1" 1 0 store
get_iff_example = get_iff 105 "s1" 1 0 store

get_or_create_owned_example :
    (v : ChatSession) × Holds (get_or_create 105 (some "s1") "s2" 1 store).1 0 v
    × (v.user_id ≡ 1)
    × (v.last_active_at ≡ 105)
unfolding get_or_create get Dict.get is_blank is_expired
get_or_create_owned_example = get_or_create_owned 105 (some "s1") "s2" 1 0 store refl

reachable-IsValid_example : IsValid (create 5 "s1" 1 (init 10 1)).1
reachable-IsValid_example = reachable-IsValid 10 1 (next here (creation 5 "s1" 1 (init 10 1)))

create-full_iff_example :
    ((create 105 "s2" 2 store).0 ≡ store_full)
    ↔ (1 ≤ length (select (is_live 105 store) store.table))
create-full_iff_example = create-full_iff 105 "s2" 2 store (tt, tt)

save-exceeds_cap_example : length (save 130 0 later).table ≡ suc (save 130 0 later).cap
unfolding Dict.get
save-exceeds_cap_example = save-exceeds_cap 130 0 alice later refl refl refl

evict_expired_example :
    ((evict_expired 130 store).1 ≡ record store { table = select (is_live 130 store) store.table })
    × ((evict_expired 130 store).0 + length (evict_expired 130 store).1.table ≡ 1)
evict_expired_example = evict_expired_lem 130 store (tt, tt)
