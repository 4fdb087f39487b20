-- ===== src/Retrieval/Tests.antt =====
-- A corpus of two foods, with a vector store that is down: the theorems on
-- ai_service/src/fos_ai/services/hybrid_search.py at it.
use food_order_system.Base.{
  ℕ, ◌≤◌, ◌≡◌, ◌↔◌, refl, inl, String, nat_eq, none, some, List, [], ◌∷◌, map, length, All,
}
use food_order_system.Base.Dict.{Absent, IsDistinct}
use food_order_system.Base.Sort.{IsSorted}
use food_order_system.Base.Outcome.{Outcome, returned, raised}
use food_order_system.Base.Whole.{whole}
use food_order_system.Schemas.{FoodMeta}
use food_order_system.Retrieval.{
  SearchResult, Reranked, unavailable, Scored, VectorStore, by_score, rrf_fuse,
}
use food_order_system.Retrieval.Hybrid.{Corpus, State, hybrid_search}
use food_order_system.Retrieval.Results.{IsOffered, hybrid_search-IsAnswer}
use food_order_system.Retrieval.Fallback.{hybrid_search-degraded}
use food_order_system.Retrieval.Fusion.{rrf_fuse-ids}
use food_order_system.Retrieval.Reranker.{init}
use food_order_system.Retrieval.Loading.{Repeats, load_all, load_all-Repeats}
use food_order_system.Base.{if◌then◌else◌, leb}

abbrev duck : FoodMeta
duck = record {
  food_id = 1;
  food_name = "Duck";
  restaurant_id = 4;
  restaurant_name = "Bay";
  unit_price = 1200;
  description = "";
  preferences = "";
}

abbrev corpus : Corpus
corpus = record {
  corpus_id = 9;
  items = duck ∷ record duck { food_id = 2; food_name = "Tofu" } ∷ [];
}

abbrev split : String → List String
split s = s ∷ []

abbrev show_id : ℕ → String
show_id n = "1"

get_scores : List (List String) → List String → List ℕ
get_scores docs tokens = map (λ d. length d) docs

rerank : ℕ → String → List (ℕ × String) → ℕ → Reranked whole × ℕ
rerank r query pairs k = (unavailable "not loaded", r)

abbrev start : State ℕ
start = record { bm25_cache = []; reranker = some 0 }

abbrev down : VectorStore whole
down = record { count = raised "no route"; hits = λ query n. raised "no route" }

abbrev found : List (SearchResult whole)
found = (hybrid_search whole split show_id get_scores rerank start "duck" corpus (some down) 5 50).0

hybrid_search-IsAnswer_example :
    All (IsOffered whole corpus.items) found × (length found ≤ 5) × (length found ≤ 20)
hybrid_search-IsAnswer_example =
    hybrid_search-IsAnswer whole rerank split show_id get_scores start "duck" corpus (some down) 5
      50

hybrid_search-degraded_example :
    hybrid_search whole split show_id get_scores rerank start "duck" corpus (some down) 5 50
    ≡ hybrid_search whole split show_id get_scores rerank start "duck" corpus none 5 50
hybrid_search-degraded_example =
    hybrid_search-degraded whole split show_id get_scores rerank start "duck" corpus down 5 50
      (inl ("no route", refl))

abbrev rankings : List (List (Scored whole))
rankings = ((1, 5) ∷ (2, 3) ∷ []) ∷ ((2, 4) ∷ []) ∷ []

rrf_fuse-ids_example :
    ((i : ℕ) → Absent i (rrf_fuse whole 60 rankings) ↔ All (Absent i) rankings)
    × IsDistinct (rrf_fuse whole 60 rankings)
    × IsSorted (by_score whole) (rrf_fuse whole 60 rankings)
rrf_fuse-ids_example = rrf_fuse-ids whole 60 rankings

-- A model that loads only later is never loaded.
late : ℕ → Outcome ℕ
late now = if leb 2 now then returned now else raised "no network"

load_all_example : Repeats late (late 1) (load_all late (1 ∷ 2 ∷ 3 ∷ []) init).0
load_all_example = load_all-Repeats late 1 (2 ∷ 3 ∷ [])
