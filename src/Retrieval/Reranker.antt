-- ===== src/Retrieval/Reranker.antt =====
-- ai_service/src/fos_ai/ml/reranker.py: the cross-encoder, which is loaded on its first use and never
-- tried again once that failed. `load` is the loading of the model and `predict` its scores; both may
-- raise, and loading may go otherwise each time, so that it takes the time of the call.
use food_order_system.Base.{
  ℕ, String, Bool, true, false, Option, none, some, List, [], map, min, max, if◌then◌else◌, length,
  take, is_empty,
}
use food_order_system.Base.Float.{Float}
use food_order_system.Base.Outcome.{Outcome, returned, raised}
use food_order_system.Base.Sort.{sort}
use food_order_system.Retrieval.{Reranked, ranked, unavailable, by_score, zip_scores}

-- `_model` and `_load_failed`.
pub record Reranker (M : Type 0) : Type 0 where
  pub model : Option M
  pub load_failed : Bool

unfoldable pub init : {M : Type 0} → Reranker M
init = record { model = none; load_failed = false }

module _ {M : Type 0} (load : ℕ → Outcome M) where
  unfoldable pub first_load : ℕ → Reranker M → Outcome M × Reranker M
  first_load now r = elim (load now) [
    | raised e ↦ (raised e, record r { load_failed = true })
    | returned m ↦ (returned m, record r { model = some m })
  ]

  unfoldable pub ensure_loaded : ℕ → Reranker M → Outcome M × Reranker M
  unfolding first_load
  ensure_loaded now r = elim r.model [
    | some m ↦ (returned m, r)
    | none ↦ if r.load_failed then (raised "previously failed to load", r) else first_load now r
  ]

  module _ (fl : Float) (predict : M → List (String × String) → Outcome (List fl.F)) where
    unfoldable pub scored : List (ℕ × String) → ℕ → Outcome (List fl.F) → Reranked fl
    scored candidates top_k (raised e) = unavailable e
    scored candidates top_k (returned scores) =
        ranked (take top_k (sort (by_score fl) (zip_scores fl (map (λ c. c.0) candidates) scores)))

    -- `top_k` is at least one and at most the number of candidates.
    unfoldable pub rerank :
        ℕ → Reranker M → String → List (ℕ × String) → ℕ → Reranked fl × Reranker M
    unfolding ensure_loaded scored
    rerank now r query candidates top_k =
        if is_empty candidates
        then (ranked [], r)
        else let k = max 1 (min top_k (length candidates)) in
          let (loaded, r') = ensure_loaded now r in
          elim loaded [
            | raised e ↦ (unavailable e, r')
            | returned m ↦
                (scored candidates k (predict m (map (λ c. (query, c.1)) candidates)), r')
          ]
