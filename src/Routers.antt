-- ===== src/Routers.antt =====
-- ai_service/src/fos_ai/routers: parse.py, search.py, recommend.py, intent.py, stats.py and health.py. What
-- fastapi checks of a request has been checked; an exception that a router does not catch is an
-- answer with the status 500.
pub mod Failures
mod Tests
use text.Mathlib.Text.{starts_with}
use food_order_system.Base.{
  ℕ, String, string_eq, Bool, true, false, not, Option, none, some, List, [], ◌∷◌, if◌then◌else◌,
  ◌==◌, is_empty, length, strip, join, leb,
}
use food_order_system.Base.Float.{Float}
use food_order_system.Base.Outcome.{Outcome, returned, raised}
use food_order_system.Cache
use food_order_system.Cache.{Cache}
use food_order_system.Metrics.{Metrics, Summary, summary}
use food_order_system.Parser.{Parsed, ok, value_error, crashed, ParseOrderResponse}
use food_order_system.Recommend.{Recommendation, RecommendItem, recommend}
use food_order_system.Retrieval.{SearchResult}
use food_order_system.Schemas.{FoodMeta}

pub data Answer {ℓ} (A : Type ℓ) : Type ℓ where
  http_error : (status : ℕ) → (detail : String) → Answer A
  answer : A → Answer A

abbrev pub not_loaded : {A : Type 0} → Answer A
not_loaded = http_error 503 "Menu corpus not loaded yet"

unfoldable pub first_id : List FoodMeta → ℕ
first_id [] = 0
first_id (f ∷ fs) = f.food_id

unfoldable pub last_id : List FoodMeta → ℕ
last_id [] = 0
last_id (f ∷ []) = f.food_id
last_id (f ∷ g ∷ fs) = last_id (g ∷ fs)

-- The arguments of `_cached_parse`, and of `_cached_search`.
abbrev pub ParseArgs : Type 0
ParseArgs = String × Option ℕ × ℕ × ℕ

abbrev pub SearchArgs : Type 0
SearchArgs = String × ℕ × List ℕ

-- What `do_parse` gives or raises.
unfoldable pub outcome_of : Parsed ParseOrderResponse → Outcome ParseOrderResponse
outcome_of (ok r) = returned r
outcome_of (value_error e) = raised e
outcome_of (crashed e) = raised e

-- The answer to what it raised.
unfoldable pub parse_error : Parsed ParseOrderResponse → String → Answer ParseOrderResponse
parse_error (value_error e) message =
    if starts_with message "LLM_REFUSED" then http_error 422 message else http_error 400 message
parse_error p message = http_error 502 (join "" ("AI_UPSTREAM_ERROR: " ∷ message ∷ []))

-- The answer to what the cached call gave, and the cache after it.
unfoldable pub parse_answer :
    Parsed ParseOrderResponse
    → Outcome ParseOrderResponse
    → Cache ParseOrderResponse
    → Answer ParseOrderResponse × Cache ParseOrderResponse
unfolding parse_error
parse_answer p (returned r) c = (answer r, c)
parse_answer p (raised e) c = (parse_error p e, c)

-- `POST /ai/parse-order`. `configured` says whether there is a client of the language model; `do_parse`
-- is the parser on the current menu; `raw_key` and `sha256` make the key of the cache.
module _ (raw_key : ParseArgs → Option String) (sha256 : String → String)
    (do_parse : List FoodMeta → String → Option ℕ → Parsed ParseOrderResponse) where
  unfoldable pub parse_signature : List FoodMeta → ℕ × ℕ
  unfolding first_id
  parse_signature menu = (length menu, first_id menu)

  unfoldable pub cached_parse :
      ℕ
      → ℕ
      → List FoodMeta
      → String
      → Option ℕ
      → Cache ParseOrderResponse
      → Outcome ParseOrderResponse × Cache ParseOrderResponse
  unfolding parse_signature outcome_of
  cached_parse start finish menu said hint c =
      let (size, first) = parse_signature menu in
      Cache.wrapper 300 256 "parser.parse_order" raw_key sha256
        (λ args. outcome_of (do_parse menu args.0 args.1)) start finish (said, hint, size, first) c

  unfoldable pub parse_order :
      ℕ
      → ℕ
      → Bool
      → List FoodMeta
      → String
      → Option ℕ
      → Cache ParseOrderResponse
      → Answer ParseOrderResponse × Cache ParseOrderResponse
  unfolding cached_parse parse_answer
  parse_order start finish configured menu said hint c =
      if is_empty menu
      then (not_loaded, c)
      else if not configured
      then (http_error 500 "LLM client not initialised", c)
      else let (result, after) = cached_parse start finish menu said hint c in
        parse_answer (do_parse menu said hint) result after

-- `_corpus_signature`
unfoldable pub corpus_signature : List FoodMeta → List ℕ
unfolding first_id last_id
corpus_signature items =
    if is_empty items then 0 ∷ [] else length items ∷ first_id items ∷ last_id items ∷ []

module _ (fl : Float) where
  pub record SearchResponse : Type 0 where
    pub query : String
    pub results : List (SearchResult fl)
    pub count : ℕ

  -- `GET /ai/search`; `do_search` is the search on the current corpus.
  module _ (raw_key : SearchArgs → Option String) (sha256 : String → String)
      (do_search : List FoodMeta → String → ℕ → Outcome (List (SearchResult fl))) where
    unfoldable pub search_menu :
        ℕ
        → ℕ
        → List FoodMeta
        → String
        → ℕ
        → Cache (List (SearchResult fl))
        → Answer SearchResponse × Cache (List (SearchResult fl))
    unfolding corpus_signature
    search_menu start finish items q limit c =
        if is_empty items
        then (not_loaded, c)
        else let (result, after) =
            Cache.wrapper 60 512 "search.search" raw_key sha256
              (λ args. do_search items args.0 args.1) start finish
              (q, limit, corpus_signature items) c in
          elim result [
            | returned rs ↦ (answer (record { query = q; results = rs; count = length rs }), after)
            | raised e ↦ (http_error 500 e, after)
          ]

  pub record RecommendResponse : Type 0 where
    pub strategy : String
    pub user_has_history : Bool
    pub items : List (RecommendItem fl)
    pub count : ℕ

  -- `GET /ai/recommend`; `history` is what the database gave for the user's orders.
  module _ (similarity : List FoodMeta → List ℕ → List fl.F)
      (topk : List (Option fl.F) → ℕ → List (ℕ × Option fl.F)) where
    unfoldable pub ordered_of : Outcome (List ℕ) → List ℕ
    ordered_of (returned ids) = ids
    ordered_of (raised e) = []

    unfoldable pub recommend_foods : List FoodMeta → Outcome (List ℕ) → ℕ → Answer RecommendResponse
    unfolding ordered_of recommend
    recommend_foods items history limit =
        let r = recommend fl similarity topk items (ordered_of history) limit in
        if is_empty items
        then not_loaded
        else answer (record {
          strategy = r.strategy;
          user_has_history = r.has_history;
          items = r.items;
          count = length r.items;
        })

  -- What a classifier does: a label with its confidence, `IntentUnavailable`, or another exception.
  pub data Classification : Type 0 where
    labelled : String → fl.F → Classification
    unavailable : String → Classification
    failed : String → Classification

  pub record IntentResponse : Type 0 where
    pub label : String
    pub confidence : fl.F
    pub source : String

  unfoldable pub intent_answer : String → Classification → Answer IntentResponse
  intent_answer source (labelled label conf) =
      answer (record { label = label; confidence = conf; source = source })
  intent_answer source (unavailable e) =
      http_error 502 (join "" ("AI_INTENT_UNAVAILABLE: " ∷ e ∷ []))
  intent_answer source (failed e) = http_error 502 (join "" ("AI_INTENT_ERROR: " ∷ e ∷ []))

  -- `POST /ai/intent`
  unfoldable pub classify_intent :
      Option (String → Classification) → String → String → Answer IntentResponse
  unfolding intent_answer
  classify_intent none source said =
      http_error 503
        "Intent classifier not configured (neither LoRA adapter nor LLM fallback is available)"
  classify_intent (some classify) source said = intent_answer source (classify said)

  -- `GET /ai/stats`
  unfoldable pub get_stats : (String → String) → ℕ → ℕ → String → Metrics fl → Answer (Summary fl)
  get_stats lower now window_seconds role m =
      if lower (strip role) == "admin"
      then answer (summary fl now window_seconds m)
      else http_error 403 "admin role required"

pub record HealthResponse : Type 0 where
  pub ready : Bool
  pub corpus_size : ℕ
  pub llm_provider : String

-- `GET /health`; the settings are missing before the start.
unfoldable pub health : List FoodMeta → Option String → Answer HealthResponse
health items none = http_error 500 "Settings not initialised"
health items (some provider) = answer (record {
  ready = not (leb (length items) 0);
  corpus_size = length items;
  llm_provider = provider;
})
