-- ===== src/Recommend.antt =====
-- ai_service/src/fos_ai/services/recommender.py: recommendations by the foods that a user ordered,
-- or by popularity. `similarity` is the score of every food against the mean of the foods at some
-- places of the corpus, and `topk` is `torch.topk`; a score is `none` where the code writes -inf.
pub mod Unseen
mod Tests
use food_order_system.Base.{
  ℕ, zero, suc, min, max, String, nat_eq, Bool, true, false, Option, none, some, List, [], ◌∷◌, map,
  if◌then◌else◌, length, take, is_empty, contains,
}
use food_order_system.Base.Float.{Float}
use food_order_system.Schemas.{FoodMeta}

abbrev pub max_limit : ℕ
max_limit = 20

unfoldable pub clamp : ℕ → ℕ
clamp limit = max 1 (min limit max_limit)

-- `corpus.items[i]`
unfoldable pub get_elem? : List FoodMeta → ℕ → Option FoodMeta
get_elem? [] i = none
get_elem? (f ∷ fs) zero = some f
get_elem? (f ∷ fs) (suc i) = get_elem? fs i

-- `[i for i, meta in enumerate(corpus.items) if meta.food_id in seen]`, from a place on.
unfoldable pub ordered_indices : List ℕ → ℕ → List FoodMeta → List ℕ
ordered_indices seen i [] = []
ordered_indices seen i (f ∷ fs) =
    let rest = ordered_indices seen (suc i) fs in if contains seen f.food_id then i ∷ rest else rest

module _ (fl : Float) where
  open fl use {F, zero_f, round_f}

  pub record RecommendItem : Type 0 where
    pub food_id : ℕ
    pub food_name : String
    pub restaurant_id : ℕ
    pub restaurant_name : String
    pub unit_price : ℕ
    pub score : F
    pub reason : String

  -- The strategy, whether the user has a history, and the items.
  pub record Recommendation : Type 0 where
    pub strategy : String
    pub has_history : Bool
    pub items : List RecommendItem

  unfoldable pub item_of : FoodMeta → F → String → RecommendItem
  item_of f score reason = record {
    food_id = f.food_id;
    food_name = f.food_name;
    restaurant_id = f.restaurant_id;
    restaurant_name = f.restaurant_name;
    unit_price = f.unit_price;
    score = score;
    reason = reason;
  }

  -- The loop that sets the scores of the ordered foods to -inf.
  unfoldable pub mask : List ℕ → List FoodMeta → List F → List (Option F)
  mask seen [] scores = map (λ x. some x) scores
  mask seen (f ∷ fs) [] = []
  mask seen (f ∷ fs) (x ∷ xs) = (if contains seen f.food_id then none else some x) ∷ mask seen fs xs

  -- The loop over the top k, which stops at the first -inf. A place outside the corpus would raise;
  -- it ends the loop here.
  unfoldable pub pick : List FoodMeta → List (ℕ × Option F) → List RecommendItem
  unfolding item_of
  pick items [] = []
  pick items ((i, none) ∷ tops) = []
  pick items ((i, some score) ∷ tops) = elim (get_elem? items i) [
    | none ↦ []
    | some f ↦ item_of f (round_f score 4) "Similar to items in your past orders" ∷ pick items tops
  ]

  unfoldable pub popularity_fallback : List FoodMeta → ℕ → Recommendation
  unfolding item_of
  popularity_fallback items limit = record {
    strategy = "popularity_fallback";
    has_history = false;
    items = map (λ f. item_of f zero_f "Popular item") (take (min limit (length items)) items);
  }

  module _ (similarity : List FoodMeta → List ℕ → List F)
      (topk : List (Option F) → ℕ → List (ℕ × Option F)) where
    unfoldable pub content_based : List FoodMeta → List ℕ → ℕ → Recommendation
    unfolding pick mask
    content_based items ordered_food_ids limit =
        let places = ordered_indices ordered_food_ids 0 items in
        if is_empty places then popularity_fallback items limit else record {
          strategy = "content_based";
          has_history = true;
          items = pick items (
              topk (mask ordered_food_ids items (similarity items places))
                (min limit (length items)));
        }

    unfoldable pub recommend : List FoodMeta → List ℕ → ℕ → Recommendation
    unfolding popularity_fallback content_based
    recommend items ordered_food_ids limit =
        if is_empty items
        then record { strategy = "popularity_fallback"; has_history = false; items = [] }
        else if is_empty ordered_food_ids
        then popularity_fallback items (clamp limit)
        else content_based items ordered_food_ids (clamp limit)
