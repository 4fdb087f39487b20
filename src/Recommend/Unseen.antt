-- ===== src/Recommend/Unseen.antt =====
-- What is recommended: foods of the corpus that the user has not ordered.
use food_order_system.Base.{
  ℕ, zero, suc, ◌≤◌, ◌≡◌, refl, min, nat_eq, true, false, Option, none, some, List, [], ◌∷◌, map,
  arith, length, take, is_empty, contains, All, In, inl, inr, Bool-cases, Option-cases,
}
use food_order_system.Base.Float.{Float}
use food_order_system.Schemas.{FoodMeta}
use food_order_system.Recommend.{
  clamp, get_elem?, ordered_indices, RecommendItem, Recommendation, item_of, mask, pick,
  popularity_fallback, content_based, recommend,
}

module _ (fl : Float) where
  -- The item is a food of the corpus, at its price, and not one of those ordered.
  abbrev pub IsNew : List FoodMeta → List ℕ → RecommendItem fl → Type 0
  IsNew items seen r =
      (contains seen r.food_id ≡ false)
      × ((f : FoodMeta) × In f items
          × (r.food_id ≡ f.food_id)
          × (r.food_name ≡ f.food_name)
          × (r.unit_price ≡ f.unit_price))

  -- The score at a place of the masked list.
  abbrev pub score_at : List (Option fl.F) → ℕ → Option (Option fl.F)
  score_at [] i = none
  score_at (x ∷ xs) zero = some x
  score_at (x ∷ xs) (suc i) = score_at xs i

  -- A food with a finite score was not ordered.
  unseen-mask :
      (seen : List ℕ) (items : List FoodMeta) (scores : List fl.F) (i : ℕ) (x : fl.F) (f : FoodMeta)
      → score_at (mask fl seen items scores) i ≡ some (some x)
      → get_elem? items i ≡ some f
      → (contains seen f.food_id ≡ false) × In f items
  unfolding mask get_elem?
  unseen-mask seen [] scores i x f h e = absurd (ground arith)
  unseen-mask seen (g ∷ items) [] i x f h e = absurd (ground arith)
  unseen-mask seen (g ∷ items) (y ∷ ys) zero x f h e = elim (Bool-cases (contains seen g.food_id)) [
    | inl ordered ↦ absurd (ground arith)
    | inr new ↦ let same : g ≡ f = ground arith in rw (← same) (new, inl refl)
  ]
  unseen-mask seen (g ∷ items) (y ∷ ys) (suc i) x f h e =
      let (u, m) = unseen-mask seen items ys i x f h e in (u, inr m)

  -- Every pair gives a place and the score there.
  abbrev pub AreScores : List (Option fl.F) → List (ℕ × Option fl.F) → Type 0
  AreScores scores tops = All (λ t. score_at scores t.0 ≡ some t.1) tops

  pick-IsNew :
      (seen : List ℕ) (items : List FoodMeta) (scores : List fl.F) (tops : List (ℕ × Option fl.F))
      → AreScores (mask fl seen items scores) tops
      → All (IsNew items seen) (pick fl items tops) × (length (pick fl items tops) ≤ length tops)
  unfolding pick item_of
  pick-IsNew seen items scores [] h = (tt, omega arith)
  pick-IsNew seen items scores ((i, none) ∷ tops) h = (tt, omega arith)
  pick-IsNew seen items scores ((i, some x) ∷ tops) h = elim (Option-cases (get_elem? items i)) [
    | inl e ↦ rw (e, pick) (tt, omega arith)
    | inr (f, e) ↦
        let (u, m) = unseen-mask seen items scores i x f h.0 e in
        let (rest, count) = pick-IsNew seen items scores tops h.1 in
        rw (e, pick) (((u, (f, m, refl, refl, refl)), rest), omega (arith, count))
  ]

  -- Without an ordered food in the corpus, every food of it is new.
  unseen-indices :
      (seen : List ℕ) (i : ℕ) (items : List FoodMeta)
      → is_empty (ordered_indices seen i items) ≡ true
      → All (λ f. contains seen f.food_id ≡ false) items
  unfolding ordered_indices
  unseen-indices seen i [] h = tt
  unseen-indices seen i (f ∷ items) h = elim (Bool-cases (contains seen f.food_id)) [
    | inl e ↦ absurd (ground arith)
    | inr e ↦ (e, unseen-indices seen (suc i) items (ground arith))
  ]

  take-IsNew :
      (seen : List ℕ) (n : ℕ) (all items : List FoodMeta)
      → ((f : FoodMeta) → In f items → In f all)
      → All (λ f. contains seen f.food_id ≡ false) items
      → All (IsNew all seen) (map (λ f. item_of fl f fl.zero_f "Popular item") (take n items))
        × (length (map (λ f. item_of fl f fl.zero_f "Popular item") (take n items)) ≤ n)
  unfolding take item_of
  take-IsNew seen zero all items sub h = (tt, omega arith)
  take-IsNew seen (suc n) all [] sub h = (tt, omega arith)
  take-IsNew seen (suc n) all (f ∷ items) sub h =
      let (rest, count) = take-IsNew seen n all items (λ g m. sub g (inr m)) h.1 in
      (((h.0, (f, sub f (inl refl), refl, refl, refl)), rest), omega (arith, count))

  pub IsGood : List FoodMeta → List ℕ → ℕ → Recommendation fl → Type 0
  IsGood items seen limit r = All (IsNew items seen) r.items × (length r.items ≤ limit)

  popularity-IsGood :
      (seen : List ℕ) (items : List FoodMeta) (limit : ℕ)
      → All (λ f. contains seen f.food_id ≡ false) items
      → IsGood items seen limit (popularity_fallback fl items limit)
  unfolding popularity_fallback IsGood
  popularity-IsGood seen items limit h =
      let (on, count) = take-IsNew seen (min limit (length items)) items items (λ f m. m) h in
      (on, omega (arith, count))

  none_seen : (items : List FoodMeta) → All (λ f. contains [] f.food_id ≡ false) items
  unfolding contains
  none_seen [] = tt
  none_seen (f ∷ items) = (refl, none_seen items)

  module _ (similarity : List FoodMeta → List ℕ → List fl.F)
      (topk : List (Option fl.F) → ℕ → List (ℕ × Option fl.F))
      (topk_scores : (xs : List (Option fl.F)) (k : ℕ) → AreScores xs (topk xs k))
      (topk_count : (xs : List (Option fl.F)) (k : ℕ) → length (topk xs k) ≤ k) where
    content-IsGood :
        (seen : List ℕ) (items : List FoodMeta) (limit : ℕ)
        → IsGood items seen limit (content_based fl similarity topk items seen limit)
    unfolding content_based IsGood
    content-IsGood seen items limit = elim (Bool-cases (is_empty (ordered_indices seen 0 items))) [
      | inl e ↦
          rw (e, content_based) (popularity-IsGood seen items limit (unseen-indices seen 0 items e))
      | inr e ↦
          let scores = similarity items (ordered_indices seen 0 items) in
          let k = min limit (length items) in
          let (on, count) =
            pick-IsNew seen items scores (topk (mask fl seen items scores) k)
              (topk_scores (mask fl seen items scores) k) in
          rw (e, content_based) (on, omega (arith, count, topk_count (mask fl seen items scores) k))
    ]

    -- By either strategy, only foods of the corpus are recommended, at their prices, never one that
    -- the user has ordered, and at most the clamped limit of them. It is assumed that `topk` answers
    -- at most k places with their scores.
    pub recommend-IsGood :
        (items : List FoodMeta) (ordered_food_ids : List ℕ) (limit : ℕ)
        → IsGood items ordered_food_ids
            (clamp limit)
            (recommend fl similarity topk items ordered_food_ids limit)
    unfolding recommend IsGood
    recommend-IsGood [] ordered_food_ids limit = (tt, omega arith)
    recommend-IsGood (f ∷ items) [] limit =
        popularity-IsGood [] (f ∷ items) (clamp limit) (none_seen (f ∷ items))
    recommend-IsGood (f ∷ items) (i ∷ is) limit = content-IsGood (i ∷ is) (f ∷ items) (clamp limit)
