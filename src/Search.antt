-- ===== src/Search.antt =====
-- ai_service/src/fos_ai/services/search.py: the search of the menu, which is hybrid when there is a
-- vector store and by cosine otherwise. The scores of the embeddings and torch.topk are arguments.
pub mod Answers
mod Tests
use food_order_system.Base.{
  ℕ, min, String, Option, none, some, List, [], ◌∷◌, if◌then◌else◌, is_empty, length,
}
use food_order_system.Base.Float.{Float}
use food_order_system.Base.Outcome.{Outcome, returned, raised}
use food_order_system.Schemas.{FoodMeta}
use food_order_system.Recommend.{get_elem?}
use food_order_system.Retrieval.{Reranked, clamp, Scored, SearchResult, VectorStore, result_of}
use food_order_system.Retrieval.Hybrid.{Corpus, State, hybrid_search}

-- `_DEFAULT_RERANK_CANDIDATES`
abbrev pub rerank_candidates : ℕ
rerank_candidates = 50

module _ (fl : Float) (similarity : String → List FoodMeta → List fl.F)
    (topk : List fl.F → ℕ → List (ℕ × fl.F)) where
  -- The loop over the top k; `items[idx]` raises out of range.
  unfoldable pub results_at : List FoodMeta → List (ℕ × fl.F) → Outcome (List (SearchResult fl))
  unfolding result_of
  results_at items [] = returned []
  results_at items ((idx, score) ∷ tops) = elim (get_elem? items idx) [
    | none ↦ raised "IndexError"
    | some f ↦ elim (results_at items tops) [
      | raised e ↦ raised e
      | returned rs ↦ returned (result_of fl f score ∷ rs)
    ]
  ]

  -- `_cosine_search`
  unfoldable pub cosine_search : String → List FoodMeta → ℕ → Outcome (List (SearchResult fl))
  unfolding results_at clamp
  cosine_search query items limit =
      results_at items (topk (similarity query items) (min (clamp limit) (length items)))

  module _ (split : String → List String) (show_id : ℕ → String)
      (get_scores : List (List String) → List String → List fl.F) {R : Type 0}
      (rerank : R → String → List (ℕ × String) → ℕ → Reranked fl × R) where
    unfoldable pub search :
        State R
        → String
        → Corpus
        → ℕ
        → Option (VectorStore fl)
        → Outcome (List (SearchResult fl)) × State R
    unfolding hybrid_search cosine_search
    search s query corpus limit store =
        if is_empty corpus.items then (returned [], s) else elim store [
          | none ↦ (cosine_search query corpus.items limit, s)
          | some v ↦
              let (results, after) =
                hybrid_search fl split show_id get_scores rerank s query corpus (some v) limit
                  rerank_candidates in
              (returned results, after)
        ]
