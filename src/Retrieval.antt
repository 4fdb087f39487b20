-- ===== src/Retrieval.antt =====
-- ai_service/src/fos_ai/services/hybrid_search.py: BM25 and dense retrieval, their fusion, and the
-- second stage that reranks. `split` is `_TOKEN_RE.split(text.lower())`, `get_scores` the BM25 index
-- of a list of documents, and `R` the state of a reranker. What an index or a vector store answers
-- is an argument; scores are floats.
pub mod Reranker
pub mod Loading
pub mod Hybrid
pub mod Results
pub mod Fallback
pub mod Fusion
mod Tests
use food_order_system.Base.{
  ℕ, suc, ◌+◌, min, max, String, nat_eq, Bool, true, false, not, Option, none, some, List, [], ◌∷◌,
  ◌++◌, map, if◌then◌else◌, ltb, leb, nat_beq, length, take, select, any, is_empty, is_blank, strip,
  join,
}
use food_order_system.Base.Dict
use food_order_system.Base.Dict.{Dict}
use food_order_system.Base.Float.{Float}
use food_order_system.Base.Sort.{sort}
use food_order_system.Base.Outcome.{Outcome, returned, raised}
use food_order_system.Schemas.{FoodMeta}

abbrev pub rrf_k : ℕ
rrf_k = 60

abbrev pub candidate_pool : ℕ
candidate_pool = 50

abbrev pub max_limit : ℕ
max_limit = 20

abbrev pub default_rerank_candidates : ℕ
default_rerank_candidates = 50

-- `max(1, min(limit, _MAX_LIMIT))`
unfoldable pub clamp : ℕ → ℕ
clamp limit = max 1 (min limit max_limit)

-- `[tok for tok in _TOKEN_RE.split(text.lower()) if tok]`
unfoldable pub tokenize : (String → List String) → String → List String
tokenize split text = select (λ tok. not (is_blank tok)) (split text)

-- `_BM25Bundle`, with the documents that its index was built from.
pub record Bundle : Type 0 where
  pub docs : List (List String)
  pub food_ids : List ℕ

-- `f"{item.food_name} {item.description}".strip()`
unfoldable pub text_of : FoodMeta → String
text_of f = strip (join " " (f.food_name ∷ f.description ∷ []))

-- `{item.food_id: item for item in corpus.items}`: the last item of an identifier stays.
unfoldable pub index_by_id : List FoodMeta → Dict ℕ FoodMeta → Dict ℕ FoodMeta
index_by_id [] d = d
index_by_id (f ∷ fs) d = index_by_id fs (Dict.put d f.food_id f)

module _ (split : String → List String) (show_id : ℕ → String) where
  -- `tokenize(item.food_name) or [f"food{item.food_id}"]`
  unfoldable pub name_tokens : FoodMeta → List String
  unfolding tokenize
  name_tokens f =
      let toks = tokenize split f.food_name in
      if is_empty toks then join "" ("food" ∷ show_id f.food_id ∷ []) ∷ [] else toks

  unfoldable pub docs_of : List FoodMeta → List (List String)
  unfolding name_tokens text_of
  docs_of items =
      let docs = map (λ f. tokenize split (text_of f)) items in
      if not (any (λ d. not (is_empty d)) docs) then map name_tokens items else docs

  -- The bundle of the corpus with this `id(corpus)`, and the module's cache of bundles.
  unfoldable pub build_bm25 : ℕ → List FoodMeta → Dict ℕ Bundle → Bundle × Dict ℕ Bundle
  unfolding docs_of
  build_bm25 key items cache =
      let fresh : Bundle = record { docs = docs_of items; food_ids = map (λ f. f.food_id) items } in
      elim (Dict.get cache key) [
        | none ↦ (fresh, Dict.put cache key fresh)
        | some cached ↦
            if nat_beq (length cached.food_ids) (length items)
            then (cached, cache)
            else (fresh, Dict.put cache key fresh)
      ]

module _ (fl : Float) where
  open fl use {F, zero_f, of_nat, add_f, div_f, round_f, leb_f}

  -- A food's identifier and its score.
  abbrev pub Scored : Type 0
  Scored = ℕ × F

  pub record SearchResult : Type 0 where
    pub food_id : ℕ
    pub food_name : String
    pub restaurant_id : ℕ
    pub restaurant_name : String
    pub unit_price : ℕ
    pub score : F

  unfoldable pub result_of : FoodMeta → F → SearchResult
  result_of f score = record {
    food_id = f.food_id;
    food_name = f.food_name;
    restaurant_id = f.restaurant_id;
    restaurant_name = f.restaurant_name;
    unit_price = f.unit_price;
    score = round_f score 4;
  }

  -- `key=lambda kv: -kv[1]`: the higher score first.
  abbrev pub by_score : Scored → Scored → Bool
  by_score a b = leb_f b.1 a.1

  unfoldable pub zip_scores : List ℕ → List F → List Scored
  zip_scores [] scores = []
  zip_scores (i ∷ is) [] = []
  zip_scores (i ∷ is) (x ∷ xs) = (i, x) ∷ zip_scores is xs

  -- An index gives one score to each document, in order.
  unfoldable pub bm25_rank :
      (split : String → List String) (get_scores : List (List String) → List String → List F)
      → String
      → Bundle
      → ℕ
      → List Scored
  unfolding zip_scores
  bm25_rank split get_scores query bundle top_n =
      let tokens = tokenize split query in
      if is_empty tokens
      then []
      else take top_n (sort by_score (zip_scores bundle.food_ids (get_scores bundle.docs tokens)))

  -- `totals[doc_id] = totals.get(doc_id, 0.0) + 1.0 / (k + rank)`
  unfoldable pub contribute : ℕ → ℕ → ℕ → Dict ℕ F → Dict ℕ F
  contribute k rank id totals =
      let old : F = elim (Dict.get totals id) [ none ↦ zero_f | some x ↦ x ] in
      Dict.put totals id (add_f old (div_f (of_nat 1) (of_nat (k + rank))))

  -- The loop over `enumerate(ranking, start=rank)`.
  unfoldable pub add_ranking : ℕ → ℕ → List Scored → Dict ℕ F → Dict ℕ F
  add_ranking k rank [] totals = totals
  add_ranking k rank ((id, score) ∷ ranking) totals =
      add_ranking k (suc rank) ranking (contribute k rank id totals)

  unfoldable pub add_rankings : ℕ → List (List Scored) → Dict ℕ F → Dict ℕ F
  add_rankings k [] totals = totals
  add_rankings k (ranking ∷ rankings) totals =
      add_rankings k rankings (add_ranking k 1 ranking totals)

  unfoldable pub rrf_fuse : ℕ → List (List Scored) → List Scored
  rrf_fuse k rankings = sort by_score (add_rankings k rankings [])

  -- The loop of `_to_results`; it tests the limit after each result, so that it answers one at least.
  unfoldable pub collect : Dict ℕ FoodMeta → ℕ → ℕ → List Scored → List SearchResult
  unfolding result_of
  collect by_id limit n [] = []
  collect by_id limit n ((id, score) ∷ ranked) = elim (Dict.get by_id id) [
    | none ↦ collect by_id limit n ranked
    | some f ↦
        result_of f score
        ∷ elim (leb limit (suc n)) [ true ↦ [] | false ↦ collect by_id limit (suc n) ranked ]
  ]

  unfoldable pub to_results : List Scored → List FoodMeta → ℕ → List SearchResult
  unfolding index_by_id
  to_results ranked items limit = collect (index_by_id items []) limit 0 ranked

  -- The texts of the foods that the corpus has.
  unfoldable pub pairs_of : Dict ℕ FoodMeta → List Scored → List (ℕ × String)
  unfolding text_of
  pairs_of by_id [] = []
  pairs_of by_id ((id, score) ∷ pool) =
      let rest = pairs_of by_id pool in
      elim (Dict.get by_id id) [ none ↦ rest | some f ↦ (id, text_of f) ∷ rest ]

  -- The rankings that are not empty: of one its own order, of two the fusion.
  unfoldable pub fuse : List (List Scored) → List Scored
  fuse [] = []
  fuse (ranking ∷ []) = ranking
  fuse (r ∷ s ∷ rankings) = rrf_fuse rrf_k (r ∷ s ∷ rankings)

  -- A vector store: `count(_COLLECTION)`, and the hits for a query up to a number.
  pub record VectorStore : Type 0 where
    pub count : Outcome ℕ
    pub hits : String → ℕ → Outcome (List Scored)

  -- Any exception of the dense retrieval leaves it without hits.
  unfoldable pub dense_ranking : Option VectorStore → String → ℕ → List Scored
  dense_ranking none query top_n = []
  dense_ranking (some store) query top_n = elim store.count [
    | raised e ↦ []
    | returned n ↦
        if ltb 0 n
        then elim (store.hits query top_n) [ raised e ↦ [] | returned hits ↦ hits ]
        else []
  ]

  -- What `Reranker.rerank` does: an answer, or `RerankerUnavailable`, in which it wraps whatever loading
  -- the model or running it raises.
  pub data Reranked : Type 0 where
    ranked : List Scored → Reranked
    unavailable : (message : String) → Reranked

  module _ {R : Type 0} (rerank : R → String → List (ℕ × String) → ℕ → Reranked × R) where
    -- `RerankerUnavailable` is caught and answers `none`.
    unfoldable pub apply_reranker :
        R → String → List Scored → List FoodMeta → ℕ → ℕ → Option (List Scored) × R
    unfolding pairs_of index_by_id
    apply_reranker r query fused items candidates limit =
        let pairs = pairs_of (index_by_id items []) (take candidates fused) in
        if is_empty pairs
        then (some (take limit fused), r)
        else let (answer, r') = rerank r query pairs limit in
          elim answer [ ranked scored ↦ (some scored, r') | unavailable e ↦ (none, r') ]

    unfoldable pub second_stage :
        Option R → String → List Scored → List FoodMeta → ℕ → ℕ → List SearchResult × Option R
    unfolding to_results apply_reranker
    second_stage none query fused items candidates limit = (to_results fused items limit, none)
    second_stage (some r) query fused items candidates limit =
        let (answer, r') = apply_reranker r query fused items candidates limit in
        elim answer [
          | none ↦ (to_results fused items limit, some r')
          | some reranked ↦ (to_results reranked items limit, some r')
        ]
