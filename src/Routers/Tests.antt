-- ===== src/Routers/Tests.antt =====
-- The statuses of ai_service/src/fos_ai/routers at small requests, and a corpus with a new price.
use text.Mathlib.Text.{starts_with}
use food_order_system.Routers.Failures.{parse_order_lem}
use food_order_system.Base.{
  if◌then◌else◌, ℕ, ◌≡◌, refl, String, string_eq, true, none, some, Option, List, [], ◌∷◌, map,
  join, strip,
}
use food_order_system.Base.Dict
use food_order_system.Base.Whole.{whole}
use food_order_system.Base.Outcome.{Outcome, returned}
use food_order_system.Cache
use food_order_system.Cache.{Cache}
use food_order_system.Metrics.{init, record_cache}
use food_order_system.Parser.{Parsed, value_error, ParseOrderResponse, ok, crashed}
use food_order_system.Retrieval.{SearchResult, result_of}
use food_order_system.Schemas.{FoodMeta}
use food_order_system.Routers.{
  Answer, http_error, ParseArgs, SearchArgs, parse_order, SearchResponse, search_menu, get_stats,
  answer,
}

abbrev duck : FoodMeta
duck = record {
  food_id = 1;
  food_name = "Duck";
  restaurant_id = 4;
  restaurant_name = "Bay";
  unit_price = 1200;
  description = "";
  preferences = "";
}

abbrev empty : {V : Type 0} → Cache V
empty = record { store = []; hits = 0; misses = 0; counters = [] }

abbrev digit : ℕ → String
digit n = "1"

abbrev same : String → String
same s = s

abbrev search_key : SearchArgs → Option String
search_key args = some (join "" (args.0 ∷ digit args.1 ∷ map digit args.2))

abbrev do_search : List FoodMeta → String → ℕ → Outcome (List (SearchResult whole))
do_search items q limit = returned (map (λ f. result_of whole f 1) items)

abbrev search_at :
    ℕ
    → List FoodMeta
    → Cache (List (SearchResult whole))
    → Answer (SearchResponse whole) × Cache (List (SearchResult whole))
search_at now items c = search_menu whole search_key same do_search now now items "duck" 5 c

abbrev dearer : FoodMeta
dearer = record duck { unit_price = 9900 }

-- A corpus with the same identifiers and another price is answered with the old price.
stale_price :
    (search_at 20 (dearer ∷ []) (search_at 10 (duck ∷ []) empty).1).0
    ≡ (search_at 20 (duck ∷ []) empty).0
unfolding search_menu result_of Cache.wrapper Cache.lookup Dict.get Cache.save Dict.put record_cache
    join Dict.remove
stale_price = refl

abbrev parse_key : ParseArgs → Option String
parse_key args = some args.0

abbrev refuse : List FoodMeta → String → Option ℕ → Parsed ParseOrderResponse
refuse menu said hint = value_error "LLM_REFUSED: no tool call"

refused :
    (parse_order parse_key same refuse 1 2 true (duck ∷ []) "hi" none empty).0
    ≡ http_error 422 "LLM_REFUSED: no tool call"
unfolding parse_order Cache.wrapper Cache.lookup Dict.get
refused = refl

not_ready :
    (parse_order parse_key same refuse 1 2 true [] "hi" none empty).0
    ≡ http_error 503 "Menu corpus not loaded yet"
unfolding parse_order
not_ready = refl

forbidden : get_stats whole same 10 5 " user " (init whole 3) ≡ http_error 403 "admin role required"
unfolding get_stats strip
forbidden = refl

parse_order_lem_example :
    ((r : ParseOrderResponse)
      → refuse (duck ∷ []) "hi" none ≡ ok r
      → (parse_order parse_key same refuse 1 2 true (duck ∷ []) "hi" none empty).0 ≡ answer r)
    × ((e : String)
        → refuse (duck ∷ []) "hi" none ≡ value_error e
        → parse_order parse_key same refuse 1 2 true (duck ∷ []) "hi" none empty
          ≡ (http_error (if starts_with e "LLM_REFUSED" then 422 else 400) e, empty))
    × ((e : String)
        → refuse (duck ∷ []) "hi" none ≡ crashed e
        → parse_order parse_key same refuse 1 2 true (duck ∷ []) "hi" none empty
          ≡ (http_error 502 (join "" ("AI_UPSTREAM_ERROR: " ∷ e ∷ [])), empty))
unfolding Dict.get
parse_order_lem_example =
    parse_order_lem parse_key same refuse 1 2 (duck ∷ []) "hi" none empty refl (λ key e. refl)
