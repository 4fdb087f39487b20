-- ===== src/Eval/Suites.antt =====
-- ai_service/eval/runners: the suites for searches, recommendations and parsed orders. Prices are
-- cents and confidences hundredths, as in the parser.
use food_order_system.Base.{
  ℕ, ◌+◌, ◌-◌, String, string_eq, nat_eq, Bool, true, false, not, ◌&&◌, ◌||◌, Option, none, List,
  [], ◌∷◌, ◌++◌, map, if◌then◌else◌, leb, ltb, ◌==◌, is_empty, length, take, select, join,
}
use food_order_system.Base.Dict
use food_order_system.Base.Dict.{Dict}
use food_order_system.Base.Float.{Float}
use food_order_system.Base.Int.{pos}
use food_order_system.Base.Json.{Json, int, str, arr, Fields, end, field}
use food_order_system.Base.Outcome.{Outcome, returned, raised}
use food_order_system.Schemas.{FoodMeta}
use food_order_system.Chat.Tools.{items_of}
use food_order_system.Llm.{ToolReply, tool_call_result, ToolDef}
use food_order_system.Parser.{ParseOrderResponse, ok, value_error, crashed, parse_order}
use food_order_system.Recommend.{Recommendation, recommend}
use food_order_system.Eval.{RunResult, hit_at_k, reciprocal_rank, ndcg_at_k, mean, is_in}

module _ (fl : Float) where
  -- `1.0 for each id`; an id that is listed twice has one entry.
  unfoldable pub relevance_map : List ℕ → Dict ℕ fl.F → Dict ℕ fl.F
  relevance_map [] out = out
  relevance_map (i ∷ is) out = relevance_map is (Dict.put out i (fl.of_nat 1))

  -- `hits / n if n else 1.0`
  unfoldable pub rate : ℕ → ℕ → fl.F
  rate hits n = if leb n 0 then fl.of_nat 1 else fl.div_f (fl.of_nat hits) (fl.of_nat n)

pub record SearchCase : Type 0 where
  pub id : Json
  pub query : String
  pub relevant_food_ids : List ℕ

-- The search suite; `rank` gives the identifiers of the results of `search`.
module _ (fl : Float) (log2 : fl.F → fl.F) (rank : String → Outcome (List ℕ)) where
  pub record SearchTally : Type 0 where
    pub hits : List fl.F
    pub rrs : List fl.F
    pub ndcgs : List fl.F
    pub failures : List Fields

  abbrev json_ids : List ℕ → Json
  json_ids ids = arr (items_of (map (λ i. int (pos i)) ids))

  unfoldable pub note_search : SearchCase → List ℕ → SearchTally → SearchTally
  unfolding hit_at_k reciprocal_rank ndcg_at_k relevance_map
  note_search c ranked t =
      let h = hit_at_k fl ranked c.relevant_food_ids 5 in
      record {
        hits = t.hits ++ h ∷ [];
        rrs = t.rrs ++ reciprocal_rank fl ranked c.relevant_food_ids ∷ [];
        ndcgs =
            t.ndcgs ++ ndcg_at_k fl log2 ranked (relevance_map fl c.relevant_food_ids []) 5 ∷ [];
        failures =
            if fl.leb_f h fl.zero_f && fl.leb_f fl.zero_f h
            then t.failures
              ++ field "id" c.id (
                  field "query" (str c.query) (
                    field "expected" (json_ids c.relevant_food_ids)
                      (field "top5" (json_ids (take 5 ranked)) end)))
                ∷ []
            else t.failures;
      }

  unfoldable pub search_cases : List SearchCase → SearchTally → Outcome SearchTally
  unfolding note_search
  search_cases [] t = returned t
  search_cases (c ∷ cs) t = elim (rank c.query) [
    | raised e ↦ raised e
    | returned ranked ↦ search_cases cs (note_search c ranked t)
  ]

  unfoldable pub run_search : List SearchCase → Outcome (RunResult fl)
  unfolding search_cases mean
  run_search cases =
      elim (search_cases cases (record { hits = []; rrs = []; ndcgs = []; failures = [] })) [
        | raised e ↦ raised e
        | returned t ↦ returned (record {
          suite = "search";
          n_cases = length cases;
          metrics =
              ("hit_at_5", mean fl t.hits)
              ∷ ("mrr", mean fl t.rrs)
              ∷ ("ndcg_at_5", mean fl t.ndcgs)
              ∷ [];
          failures = t.failures;
        })
      ]

pub record RecommendCase : Type 0 where
  pub id : Json
  pub history_food_ids : List ℕ
  pub expected_strategy : String
  pub expected_has_history : Bool
  pub must_exclude_ids : List ℕ

-- The failure of a case, with its reasons.
unfoldable pub failure_of : Json → List String → List Fields
failure_of id reasons =
    if is_empty reasons
    then []
    else field "id" id (field "reasons" (arr (items_of (map (λ r. str r) reasons))) end) ∷ []

-- A reason, unless the test holds.
unfoldable pub unless : Bool → String → List String
unless holds reason = if holds then [] else reason ∷ []

unfoldable pub same_flag : Bool → Bool → Bool
same_flag true b = b
same_flag false b = not b

-- The recommender suite. `show` is the text of a number, `quote` is `repr` of a text and `flag` the
-- text of a Boolean.
module _ (fl : Float) (show : ℕ → String) (quote : String → String) (flag : Bool → String)
    (similarity : List FoodMeta → List ℕ → List fl.F)
    (topk : List (Option fl.F) → ℕ → List (ℕ × Option fl.F)) where
  unfoldable pub recommend_reasons : RecommendCase → Recommendation fl → List String
  unfolding unless same_flag is_in
  recommend_reasons c r =
      let ids = map (λ i. i.food_id) r.items in
      unless (r.strategy == c.expected_strategy)
        (join "" ("strategy=" ∷ quote r.strategy ∷ " expected=" ∷ quote c.expected_strategy ∷ []))
      ++ unless (same_flag r.has_history c.expected_has_history) (
          join ""
            ("has_history=" ∷ flag r.has_history ∷ " expected=" ∷ flag c.expected_has_history ∷ []))
      ++ map (λ x. join "" ("recommended excluded id " ∷ show x ∷ []))
          (select (is_in ids) c.must_exclude_ids)
      ++ unless (not (is_empty r.items) || (c.expected_strategy == "popularity_fallback"))
          "expected >=1 rec, got 0"

  -- The strategies that were as expected, and the failures.
  unfoldable pub recommend_cases :
      List FoodMeta → List RecommendCase → ℕ → List Fields → ℕ × List Fields
  unfolding recommend recommend_reasons failure_of
  recommend_cases corpus [] strategy_hits failures = (strategy_hits, failures)
  recommend_cases corpus (c ∷ cs) strategy_hits failures =
      let r = recommend fl similarity topk corpus c.history_food_ids 5 in
      recommend_cases corpus cs
        (if r.strategy == c.expected_strategy then strategy_hits + 1 else strategy_hits)
        (failures ++ failure_of c.id (recommend_reasons c r))

  unfoldable pub run_recommend : List FoodMeta → List RecommendCase → RunResult fl
  unfolding recommend_cases rate
  run_recommend corpus cases =
      let (strategy_hits, failures) = recommend_cases corpus cases 0 [] in
      let n = length cases in
      record {
        suite = "recommend";
        n_cases = n;
        metrics =
            ("strategy_accuracy", rate fl strategy_hits n)
            ∷ ("pass_rate", rate fl (n - length failures) n)
            ∷ [];
        failures = failures;
      }

pub record ParseCase : Type 0 where
  pub id : Json
  pub text : String
  pub llm_stub : Json
  pub expected_restaurant_id : ℕ
  pub item_count : ℕ
  pub total : ℕ
  pub min_confidence : ℕ

-- `_StubLlm.tool_call`
unfoldable pub stub_llm : Json → String → String → List ToolDef → Outcome ToolReply
stub_llm payload system user tools =
    returned (tool_call_result "create_order_draft" payload "" "tool_use")

-- `abs(a - b) > 0.01`, in cents.
unfoldable pub is_off : ℕ → ℕ → Bool
is_off a b = ltb 1 ((a - b) + (b - a))

-- The parser suite, with what the parser takes; `percent` is the text of a confidence.
module _ (fl : Float) (show money percent : ℕ → String) (lower : String → String)
    (to_quantity : Json → Option ℕ) where
  unfoldable pub parse_reasons : ParseCase → ParseOrderResponse → List String
  unfolding unless is_off
  parse_reasons c r =
      unless (r.draft.draft_restaurant_id == c.expected_restaurant_id) (
        join "" (
          "restaurant_id="
          ∷ show r.draft.draft_restaurant_id
          ∷ " expected="
          ∷ show c.expected_restaurant_id
          ∷ []))
      ++ unless (length r.draft.items == c.item_count) (
          join ""
            ("item_count=" ∷ show (length r.draft.items) ∷ " expected=" ∷ show c.item_count ∷ []))
      ++ unless (not (is_off r.draft.estimated_total c.total))
          (join "" ("total=" ∷ money r.draft.estimated_total ∷ " expected=" ∷ money c.total ∷ []))
      ++ unless (leb c.min_confidence r.confidence)
          (join "" ("confidence=" ∷ percent r.confidence ∷ " < " ∷ percent c.min_confidence ∷ []))

  -- The hits of restaurants, of confidences, and the failures.
  abbrev pub ParseTally : Type 0
  ParseTally = ℕ × ℕ × List Fields

  unfoldable pub note_parse : ParseCase → ParseOrderResponse → ParseTally → ParseTally
  unfolding parse_reasons failure_of
  note_parse c r (restaurants, confidences, failures) = (
    (if r.draft.draft_restaurant_id == c.expected_restaurant_id
        then restaurants + 1
        else restaurants),
    (if leb c.min_confidence r.confidence then confidences + 1 else confidences),
    failures ++ failure_of c.id (parse_reasons c r),
  )

  unfoldable pub parse_cases : List FoodMeta → List ParseCase → ParseTally → Outcome ParseTally
  unfolding parse_order note_parse stub_llm
  parse_cases menu [] t = returned t
  parse_cases menu (c ∷ cs) t =
      elim (parse_order lower to_quantity money show (stub_llm c.llm_stub) c.text menu none) [
        | value_error e ↦ raised e
        | crashed e ↦ raised e
        | ok r ↦ parse_cases menu cs (note_parse c r t)
      ]

  unfoldable pub run_parse : List FoodMeta → List ParseCase → Outcome (RunResult fl)
  unfolding parse_cases rate
  run_parse menu cases = elim (parse_cases menu cases (0, 0, [])) [
    | raised e ↦ raised e
    | returned (restaurants, confidences, failures) ↦
        let n = length cases in
        returned (record {
          suite = "parse";
          n_cases = n;
          metrics =
              ("restaurant_match", rate fl restaurants n)
              ∷ ("confidence_pass_rate", rate fl confidences n)
              ∷ ("pass_rate", rate fl (n - length failures) n)
              ∷ [];
          failures = failures;
        })
  ]
