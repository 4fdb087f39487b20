-- ===== src/Retrieval/Results.antt =====
-- What a search answers: foods of the corpus, and no more than asked for.
use food_order_system.Base.{
  ℕ, suc, ◌+◌, ◌≤◌, ◌<◌, ◌≡◌, ◌⊎◌, refl, inl, inr, max, String, nat_eq, Option, none, some, List,
  [], ◌∷◌, arith, leb, length, is_empty, All, In, Option-cases, Bool-cases,
}
use food_order_system.Base.Dict
use food_order_system.Base.Dict.{Dict, get-put}
use food_order_system.Base.Float.{Float}
use food_order_system.Schemas.{FoodMeta}
use food_order_system.Retrieval.{
  Reranked, Bundle, build_bm25, index_by_id, clamp, Scored, SearchResult, VectorStore, collect,
  to_results, apply_reranker, second_stage, fuse,
}
use food_order_system.Retrieval.Hybrid.{
  Corpus, State, pool_size, rankings_of, search_with, hybrid_search,
}

index_by_id-In :
    (fs : List FoodMeta) (d : Dict ℕ FoodMeta) (k : ℕ) (f : FoodMeta)
    → Dict.get (index_by_id fs d) k ≡ some f
    → In f fs ⊎ (Dict.get d k ≡ some f)
unfolding index_by_id
index_by_id-In [] d k f h = inr h
index_by_id-In (g ∷ fs) d k f h =
    ground (arith, index_by_id-In fs (Dict.put d g.food_id g) k f h, get-put d g.food_id k g)

indexed-In :
    (fs : List FoodMeta) (k : ℕ) (f : FoodMeta) → Dict.get (index_by_id fs []) k ≡ some f → In f fs
unfolding Dict.get
indexed-In fs k f h = ground (arith, index_by_id-In fs [] k f h)

clamp-bounds : (limit n : ℕ) → n ≤ clamp limit → (n ≤ max 1 limit) × (n ≤ 20)
unfolding clamp
clamp-bounds limit n h = (omega (arith, h), omega (arith, h))

module _ (fl : Float) where
  -- The result is a food of the items, under its identifier and name, of its restaurant, with its price.
  abbrev pub IsOffered : List FoodMeta → SearchResult fl → Type 0
  IsOffered items r =
      (f : FoodMeta) × In f items
      × (r.food_id ≡ f.food_id)
      × (r.food_name ≡ f.food_name)
      × (r.restaurant_id ≡ f.restaurant_id)
      × (r.restaurant_name ≡ f.restaurant_name)
      × (r.unit_price ≡ f.unit_price)

  collect-IsOffered :
      (items : List FoodMeta) (limit n : ℕ) (ranked : List (Scored fl))
      → n < limit
      → All (IsOffered items) (collect fl (index_by_id items []) limit n ranked)
        × (length (collect fl (index_by_id items []) limit n ranked) + n ≤ limit)
  unfolding collect
  collect-IsOffered items limit n [] h = (tt, omega arith)
  collect-IsOffered items limit n ((id, score) ∷ ranked) h =
      elim (Option-cases (Dict.get (index_by_id items []) id)) [
        | inl e ↦ rw (e, collect) (collect-IsOffered items limit n ranked h)
        | inr (f, e) ↦ elim (Bool-cases (leb limit (suc n))) [
          | inl full ↦
              rw (e, full, collect)
                (((f, indexed-In items id f e, refl, refl, refl, refl, refl), tt), omega arith)
          | inr room ↦
              let (on, count) = collect-IsOffered items limit (suc n) ranked (ground arith) in
              rw (e, room, collect)
                (
                  ((f, indexed-In items id f e, refl, refl, refl, refl, refl), on),
                  omega (arith, count),
                )
        ]
      ]

  -- The answer is good for a request of `limit` results.
  abbrev pub IsAnswer : List FoodMeta → ℕ → List (SearchResult fl) → Type 0
  IsAnswer items limit rs = All (IsOffered items) rs × (length rs ≤ limit)

  to_results-IsAnswer :
      (ranked : List (Scored fl)) (items : List FoodMeta) (limit : ℕ)
      → 0 < limit
      → IsAnswer items limit (to_results fl ranked items limit)
  unfolding to_results
  to_results-IsAnswer ranked items limit h =
      let (on, count) = collect-IsOffered items limit 0 ranked h in (on, omega (arith, count))

  module _ {R : Type 0} (rerank : R → String → List (ℕ × String) → ℕ → Reranked fl × R) where
    second_stage-IsAnswer :
        (r : Option R) (query : String) (fused : List (Scored fl)) (items : List FoodMeta)
        (candidates limit : ℕ)
        → 0 < limit
        → IsAnswer items limit (second_stage fl rerank r query fused items candidates limit).0
    unfolding second_stage
    second_stage-IsAnswer none query fused items candidates limit h =
        to_results-IsAnswer fused items limit h
    second_stage-IsAnswer (some r) query fused items candidates limit h =
        elim (Option-cases (apply_reranker fl rerank r query fused items candidates limit).0) [
          | inl e ↦ rw (e, second_stage) (to_results-IsAnswer fused items limit h)
          | inr (ranked, e) ↦ rw (e, second_stage) (to_results-IsAnswer ranked items limit h)
        ]

    module _ (split : String → List String) (show_id : ℕ → String)
        (get_scores : List (List String) → List String → List fl.F) where
      search_with-IsAnswer :
          (s : State R) (bundle : Bundle) (cache : Dict ℕ Bundle) (query : String)
          (items : List FoodMeta) (store : Option (VectorStore fl)) (limit candidates : ℕ)
          → 0 < limit
          → IsAnswer items limit
              (search_with fl split show_id get_scores rerank s bundle cache query items store limit
                candidates).0
      unfolding search_with
      search_with-IsAnswer s bundle cache query items store limit candidates h =
          let rankings =
            rankings_of fl split show_id get_scores rerank bundle store query
              (pool_size fl split show_id get_scores rerank s.reranker candidates) in
          elim (Bool-cases (is_empty rankings)) [
            | inl none_found ↦ rw (none_found, search_with) (tt, omega arith)
            | inr found ↦
                rw (found, search_with)
                  (second_stage-IsAnswer s.reranker query (fuse fl rankings) items candidates limit
                    h)
          ]

      pub clamped-IsAnswer :
          (s : State R) (query : String) (corpus : Corpus) (store : Option (VectorStore fl))
          (limit candidates : ℕ)
          → IsAnswer corpus.items
              (clamp limit)
              (hybrid_search fl split show_id get_scores rerank s query corpus store limit
                candidates).0
      unfolding hybrid_search clamp
      clamped-IsAnswer s query corpus store limit candidates =
          elim (Bool-cases (is_empty corpus.items)) [
            | inl empty ↦ rw (empty, hybrid_search) (tt, omega arith)
            | inr full ↦
                let (bundle, cache) =
                  build_bm25 split show_id corpus.corpus_id corpus.items s.bm25_cache in
                rw (full, hybrid_search)
                  (search_with-IsAnswer s bundle cache query corpus.items store (clamp limit)
                    (max (clamp limit) candidates) (omega arith))
          ]

      -- Whatever the query, the vector store and the reranker, a hybrid search answers at most the
      -- limit of results, taken to be at least 1 and at most 20; each is a food of the corpus, with its
      -- identifier, its name, its restaurant's identifier and name, and its price.
      pub hybrid_search-IsAnswer :
          (s : State R) (query : String) (corpus : Corpus) (store : Option (VectorStore fl))
          (limit candidates : ℕ)
          → let results =
              (hybrid_search fl split show_id get_scores rerank s query corpus store limit
                candidates).0 in
            All (IsOffered corpus.items) results
            × (length results ≤ max 1 limit)
            × (length results ≤ 20)
      hybrid_search-IsAnswer s query corpus store limit candidates =
          let (all, few) = clamped-IsAnswer s query corpus store limit candidates in
          let (below, bounded) = clamp-bounds limit _ few in (all, below, bounded)
