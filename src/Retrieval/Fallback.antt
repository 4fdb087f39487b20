-- ===== src/Retrieval/Fallback.antt =====
-- What a search falls back to.
use food_order_system.Base.{
  ℕ, ◌≡◌, ◌⊎◌, refl, inl, inr, max, String, nat_eq, none, some, List, arith,
}
use food_order_system.Base.Dict.{Dict}
use food_order_system.Base.Float.{Float}
use food_order_system.Base.Outcome.{returned, raised, Outcome-cases}
use food_order_system.Schemas.{FoodMeta}
use food_order_system.Retrieval.{Reranked, Bundle, build_bm25, VectorStore, dense_ranking, clamp}
use food_order_system.Retrieval.Hybrid.{
  Corpus, State, pool_size, rankings_of, search_with, hybrid_search,
}

module _ (fl : Float) where
  -- The store has no hits for the query: it cannot be counted, it is empty, or its search fails.
  abbrev pub IsDown : VectorStore fl → String → Type 0
  IsDown store query =
      ((e : String) × (store.count ≡ raised e))
      ⊎ ((store.count ≡ returned 0) ⊎ ((n : ℕ) → (e : String) × (store.hits query n ≡ raised e)))

  dense_ranking-down :
      (store : VectorStore fl) (query : String) (n : ℕ)
      → IsDown store query
      → dense_ranking fl (some store) query n ≡ dense_ranking fl none query n
  unfolding dense_ranking
  dense_ranking-down store query n (inl (e, uncounted)) = ground arith
  dense_ranking-down store query n (inr (inl empty)) = ground arith
  dense_ranking-down store query n (inr (inr fails)) =
      ground (arith, fails n, Outcome-cases store.count)

  module _ (split : String → List String) (show_id : ℕ → String)
      (get_scores : List (List String) → List String → List fl.F) {R : Type 0}
      (rerank : R → String → List (ℕ × String) → ℕ → Reranked fl × R) where
    rankings_of-down :
        (bundle : Bundle) (store : VectorStore fl) (query : String) (n : ℕ)
        → IsDown store query
        → rankings_of fl split show_id get_scores rerank bundle (some store) query n
          ≡ rankings_of fl split show_id get_scores rerank bundle none query n
    unfolding rankings_of
    rankings_of-down bundle store query n down = rw (dense_ranking-down store query n down) refl

    search_with-down :
        (s : State R) (bundle : Bundle) (cache : Dict ℕ Bundle) (query : String)
        (items : List FoodMeta) (store : VectorStore fl) (limit candidates : ℕ)
        → IsDown store query
        → search_with fl split show_id get_scores rerank s bundle cache query items
            (some store)
            limit
            candidates
          ≡ search_with fl split show_id get_scores rerank s bundle cache query items none limit
              candidates
    unfolding search_with
    search_with-down s bundle cache query items store limit candidates down =
        let pool = pool_size fl split show_id get_scores rerank s.reranker candidates in
        rw (rankings_of-down bundle store query pool down, search_with) refl

    -- A vector store that cannot be counted, is empty or fails on the query leaves the search as it
    -- is without a vector store: no exception, the same results, the same state.
    pub hybrid_search-degraded :
        (s : State R) (query : String) (corpus : Corpus) (store : VectorStore fl)
        (limit candidates : ℕ)
        → IsDown store query
        → hybrid_search fl split show_id get_scores rerank s query corpus
            (some store)
            limit
            candidates
          ≡ hybrid_search fl split show_id get_scores rerank s query corpus none limit candidates
    unfolding hybrid_search
    hybrid_search-degraded s query corpus store limit candidates down =
        let (bundle, cache) = build_bm25 split show_id corpus.corpus_id corpus.items s.bm25_cache in
        let same =
          search_with-down s bundle cache query corpus.items store (clamp limit)
            (max (clamp limit) candidates) down in
        rw same refl
