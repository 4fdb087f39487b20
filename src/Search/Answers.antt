-- ===== src/Search/Answers.antt =====
-- What a search answers, with a vector store and without.
use mathlib.Core.Path.{subst}
use food_order_system.Base.{
  ℕ, zero, suc, ◌<◌, ◌≤◌, ◌≡◌, refl, ap, ◌∙◌, min, String, Option, none, some, List, [], ◌∷◌, All,
  arith, is_empty, length, In, Bool-cases, inl, inr, true,
}
use food_order_system.Base.Float.{Float}
use food_order_system.Base.Outcome.{Outcome, returned}
use food_order_system.Schemas.{FoodMeta}
use food_order_system.Recommend.{get_elem?}
use food_order_system.Retrieval.{Reranked, clamp, SearchResult, VectorStore, result_of}
use food_order_system.Retrieval.Hybrid.{Corpus, State}
use food_order_system.Retrieval.Results.{IsOffered, clamped-IsAnswer}
use food_order_system.Search.{results_at, cosine_search, search, rerank_candidates}

get_elem-some :
    (items : List FoodMeta) (i : ℕ)
    → i < length items
    → (f : FoodMeta) × (get_elem? items i ≡ some f) × In f items
unfolding get_elem?
get_elem-some [] i h = absurd (omega (arith, h))
get_elem-some (f ∷ fs) zero h = (f, refl, inl refl)
get_elem-some (f ∷ fs) (suc i) h =
    let (g, e, m) = get_elem-some fs i (omega (arith, h)) in (g, e, inr m)

empty-length : (items : List FoodMeta) → is_empty items ≡ true → length items ≡ 0
empty-length [] h = refl
empty-length (f ∷ fs) h = absurd (ground (arith, h))

module _ (fl : Float) where
  -- Results that are foods of the items, as many as the places.
  abbrev IsFound : List FoodMeta → ℕ → Outcome (List (SearchResult fl)) → Type 0
  IsFound items n o =
      (rs : List (SearchResult fl)) × (o ≡ returned rs)
      × All (IsOffered fl items) rs
      × (length rs ≡ n)

  module _ (similarity : String → List FoodMeta → List fl.F)
      (topk : List fl.F → ℕ → List (ℕ × fl.F)) where
    offered :
        (f : FoodMeta) (score : fl.F) (items : List FoodMeta)
        → In f items
        → IsOffered fl items (result_of fl f score)
    unfolding result_of
    offered f score items m = (f, m, refl, refl, refl, refl, refl)

    results_at-IsFound :
        (items : List FoodMeta) (tops : List (ℕ × fl.F))
        → All (λ t. t.0 < length items) tops
        → IsFound items (length tops) (results_at fl similarity topk items tops)
    unfolding results_at
    results_at-IsFound items [] h = ([], refl, tt, refl)
    results_at-IsFound items ((i, score) ∷ tops) (lt, h) =
        let (f, e, m) = get_elem-some items i lt in
        let (rs, g, all, size) = results_at-IsFound items tops h in
        (
          result_of fl f score ∷ rs,
          rw (e, g, results_at) refl,
          (offered f score items m, all),
          ap suc size,
        )

    module _
        (similar_size : (q : String) (items : List FoodMeta)
          → length (similarity q items) ≡ length items)
        (topk_places : (xs : List fl.F) (k : ℕ) → All (λ t. t.0 < length xs) (topk xs k))
        (topk_size : (xs : List fl.F) (k : ℕ) → k ≤ length xs → length (topk xs k) ≡ k) where
      cosine_search-IsFound :
          (q : String) (items : List FoodMeta) (limit : ℕ)
          → IsFound items
              (min (clamp limit) (length items))
              (cosine_search fl similarity topk q items limit)
      unfolding cosine_search
      cosine_search-IsFound q items limit =
          let scores = similarity q items in
          let k = min (clamp limit) (length items) in
          let places : All (λ t. t.0 < length items) (topk scores k) =
            subst (λ n. All (λ t. t.0 < n) (topk scores k)) (similar_size q items)
              (topk_places scores k) in
          let (rs, e, all, size) = results_at-IsFound items (topk scores k) places in
          (rs, e, all, size ∙ topk_size scores k (omega (arith, similar_size q items)))

      module _ (split : String → List String) (show_id : ℕ → String)
          (get_scores : List (List String) → List String → List fl.F) {R : Type 0}
          (rerank : R → String → List (ℕ × String) → ℕ → Reranked fl × R) where
        -- With a vector store or without, a search ends without an error and answers foods of the
        -- corpus, at their prices, at most the clamped limit of them; without a vector store it answers
        -- exactly as many, or the whole corpus if it has fewer. It is assumed that there is a score for
        -- each food, and that `topk` answers k places of the scores.
        pub search-IsAnswer :
            (s : State R) (q : String) (corpus : Corpus) (limit : ℕ)
            (store : Option (VectorStore fl))
            → (rs : List (SearchResult fl)) × ((search fl similarity topk split show_id get_scores
                  rerank s q corpus limit store).0
                ≡ returned rs)
              × All (IsOffered fl corpus.items) rs
              × (length rs ≤ clamp limit)
              × (store ≡ none → length rs ≡ min (clamp limit) (length corpus.items))
        unfolding search
        search-IsAnswer s q corpus limit none = elim (Bool-cases (is_empty corpus.items)) [
          | inl e ↦
              let bare : length corpus.items ≡ 0 = empty-length corpus.items e in
              ([], rw (e, search) refl, tt, omega arith, (λ h. omega (arith, bare)))
          | inr e ↦
              let (rs, f, all, size) = cosine_search-IsFound q corpus.items limit in
              (rs, rw (e, search) f, all, omega (arith, size), (λ h. size))
        ]
        search-IsAnswer s q corpus limit (some v) = elim (Bool-cases (is_empty corpus.items)) [
          | inl e ↦ ([], rw (e, search) refl, tt, omega arith, (λ h. absurd (ground (arith, h))))
          | inr e ↦
              let (all, few) =
                clamped-IsAnswer fl rerank split show_id get_scores s q corpus (some v) limit
                  rerank_candidates in
              (_, rw (e, search) refl, all, few, (λ h. absurd (ground (arith, h))))
        ]
