-- ===== src/Search/Tests.antt =====
-- Two foods and no vector store: ai_service/src/fos_ai/services/search.py at them.
use food_order_system.Base.{
  ◌-◌, ℕ, zero, suc, ◌<◌, ◌≤◌, ◌≡◌, refl, min, String, Option, none, List, [], ◌∷◌, map, All, arith,
  length,
}
use food_order_system.Base.Whole.{whole}
use food_order_system.Base.Outcome.{returned}
use food_order_system.Schemas.{FoodMeta}
use food_order_system.Retrieval.{clamp, SearchResult, VectorStore, Reranked, unavailable}
use food_order_system.Retrieval.Hybrid.{Corpus, State}
use food_order_system.Retrieval.Results.{IsOffered}
use food_order_system.Search.{search}
use food_order_system.Search.Answers.{search-IsAnswer}

abbrev duck : FoodMeta
duck = record {
  food_id = 1;
  food_name = "Duck";
  restaurant_id = 4;
  restaurant_name = "Bay";
  unit_price = 1200;
  description = "";
  preferences = "";
}

abbrev corpus : Corpus
corpus = record {
  corpus_id = 9;
  items = duck ∷ record duck { food_id = 2; food_name = "Tofu" } ∷ [];
}

abbrev similarity : String → List FoodMeta → List ℕ
similarity q [] = []
similarity q (f ∷ fs) = f.food_id ∷ similarity q fs

similarity-size : (q : String) (items : List FoodMeta) → length (similarity q items) ≡ length items
similarity-size q [] = refl
similarity-size q (f ∷ fs) = omega (arith, similarity-size q fs)

-- The first k places, from the place `i`.
abbrev places : ℕ → List ℕ → ℕ → List (ℕ × ℕ)
places i xs zero = []
places i [] (suc k) = []
places i (x ∷ xs) (suc k) = (i, x) ∷ places (suc i) xs k

places-lt :
    (i n : ℕ) (xs : List ℕ) (k : ℕ) → length xs ≤ n - i → i ≤ n → All (λ t. t.0 < n) (places i xs k)
places-lt i n xs zero h le = tt
places-lt i n [] (suc k) h le = tt
places-lt i n (x ∷ xs) (suc k) h le =
    (omega (arith, h), places-lt (suc i) n xs k (omega (arith, h)) (omega (arith, h)))

places-size : (i : ℕ) (xs : List ℕ) (k : ℕ) → k ≤ length xs → length (places i xs k) ≡ k
places-size i xs zero h = refl
places-size i [] (suc k) h = absurd (omega (arith, h))
places-size i (x ∷ xs) (suc k) h = omega (arith, places-size (suc i) xs k (omega (arith, h)))

abbrev split : String → List String
split s = s ∷ []

abbrev show_id : ℕ → String
show_id n = "1"

abbrev get_scores : List (List String) → List String → List ℕ
get_scores docs tokens = map (λ d. length d) docs

abbrev rerank : ℕ → String → List (ℕ × String) → ℕ → Reranked whole × ℕ
rerank r query pairs k = (unavailable "not loaded", r)

abbrev start : State ℕ
start = record { bm25_cache = []; reranker = none }

search-IsAnswer_example :
    (rs : List (SearchResult whole)) × ((search whole similarity
        (places 0)
        split
        show_id
        get_scores
        rerank
        start
        "duck"
        corpus
        5
        none).0
      ≡ returned rs)
    × All (IsOffered whole corpus.items) rs
    × (length rs ≤ clamp 5)
    × (◌≡◌ {A = Option (VectorStore whole)} none none
        → length rs ≡ min (clamp 5) (length corpus.items))
search-IsAnswer_example =
    search-IsAnswer whole similarity (places 0) similarity-size
      (λ xs k. places-lt 0 (length xs) xs k (omega arith) (omega arith)) (places-size 0) split
      show_id get_scores rerank start "duck" corpus 5 none
