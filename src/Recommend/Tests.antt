-- ===== src/Recommend/Tests.antt =====
-- A user who ordered one of three foods: the theorem on ai_service/src/fos_ai/services/recommender.py at it.
use food_order_system.Base.{
  ℕ, zero, suc, ◌≤◌, refl, nat_eq, Option, List, [], ◌∷◌, map, arith, length,
}
use food_order_system.Base.Whole.{whole}
use food_order_system.Schemas.{FoodMeta}
use food_order_system.Recommend.{clamp, recommend}
use food_order_system.Recommend.Unseen.{AreScores, IsGood, recommend-IsGood}

abbrev duck : FoodMeta
duck = record {
  food_id = 1;
  food_name = "Duck";
  restaurant_id = 4;
  restaurant_name = "Bay";
  unit_price = 1200;
  description = "";
  preferences = "";
}

abbrev items : List FoodMeta
items =
    duck
    ∷ record duck { food_id = 2; food_name = "Tofu" }
    ∷ record duck { food_id = 3; food_name = "Soup" }
    ∷ []

similarity : List FoodMeta → List ℕ → List ℕ
similarity fs places = map (λ f. f.unit_price) fs

-- The first score alone is a top of any list.
topk : List (Option ℕ) → ℕ → List (ℕ × Option ℕ)
topk [] k = []
topk (x ∷ xs) zero = []
topk (x ∷ xs) (suc k) = (0, x) ∷ []

topk_scores : (xs : List (Option ℕ)) (k : ℕ) → AreScores whole xs (topk xs k)
unfolding topk
topk_scores [] k = tt
topk_scores (x ∷ xs) zero = tt
topk_scores (x ∷ xs) (suc k) = (refl, tt)

topk_count : (xs : List (Option ℕ)) (k : ℕ) → length (topk xs k) ≤ k
unfolding topk
topk_count [] k = omega arith
topk_count (x ∷ xs) zero = omega arith
topk_count (x ∷ xs) (suc k) = omega arith

recommend_example :
    IsGood whole items (2 ∷ []) (clamp 3) (recommend whole similarity topk items (2 ∷ []) 3)
recommend_example = recommend-IsGood whole similarity topk topk_scores topk_count items (2 ∷ []) 3
