-- ===== src/Retrieval/Hybrid.antt =====
-- ai_service/src/fos_ai/services/hybrid_search.py: `hybrid_search`, the stages together.
use food_order_system.Base.{
  ℕ, max, String, not, Option, none, some, List, [], ◌∷◌, if◌then◌else◌, select, is_empty,
}
use food_order_system.Base.Dict.{Dict}
use food_order_system.Base.Float.{Float}
use food_order_system.Schemas.{FoodMeta}
use food_order_system.Retrieval.{
  Reranked, candidate_pool, clamp, Bundle, build_bm25, Scored, SearchResult, VectorStore, bm25_rank,
  dense_ranking, fuse, second_stage,
}

-- `MenuCorpus`: its identity and its items.
pub record Corpus : Type 0 where
  pub corpus_id : ℕ
  pub items : List FoodMeta

-- What a search reads and leaves behind: `_bm25_cache`, and the reranker if there is one.
pub record State (R : Type 0) : Type 0 where
  pub bm25_cache : Dict ℕ Bundle
  pub reranker : Option R

module _ (fl : Float) (split : String → List String) (show_id : ℕ → String)
    (get_scores : List (List String) → List String → List fl.F) {R : Type 0}
    (rerank : R → String → List (ℕ × String) → ℕ → Reranked fl × R) where
  unfoldable pub pool_size : Option R → ℕ → ℕ
  pool_size none candidates = candidate_pool
  pool_size (some r) candidates = max candidate_pool candidates

  -- The rankings that found something.
  unfoldable pub rankings_of :
      Bundle → Option (VectorStore fl) → String → ℕ → List (List (Scored fl))
  rankings_of bundle store query pool =
      select (λ r. not (is_empty r))
        (bm25_rank fl split get_scores query bundle pool ∷ dense_ranking fl store query pool ∷ [])

  -- The candidates that stay are `candidates`, the limit is `limit`, both as clamped.
  unfoldable pub search_with :
      State R
      → Bundle
      → Dict ℕ Bundle
      → String
      → List FoodMeta
      → Option (VectorStore fl)
      → ℕ
      → ℕ
      → List (SearchResult fl) × State R
  unfolding pool_size rankings_of
  search_with s bundle cache query items store limit candidates =
      let rankings = rankings_of bundle store query (pool_size s.reranker candidates) in
      if is_empty rankings
      then ([], record s { bm25_cache = cache })
      else let (results, r) =
          second_stage fl rerank s.reranker query (fuse fl rankings) items candidates limit in
        (results, record { bm25_cache = cache; reranker = r })

  unfoldable pub hybrid_search :
      State R → String → Corpus → Option (VectorStore fl) → ℕ → ℕ → List (SearchResult fl) × State R
  unfolding search_with
  hybrid_search s query corpus store limit rerank_candidates =
      if is_empty corpus.items
      then ([], s)
      else let (bundle, cache) =
          build_bm25 split show_id corpus.corpus_id corpus.items s.bm25_cache in
        search_with s bundle cache query corpus.items store (clamp limit)
          (max (clamp limit) rerank_candidates)
