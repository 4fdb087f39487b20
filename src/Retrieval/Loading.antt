-- ===== src/Retrieval/Loading.antt =====
-- The load of the reranker's model is tried once.
use food_order_system.Base.{ℕ, ◌≡◌, refl, String, Bool, true, false, none, some, List, [], ◌∷◌}
use food_order_system.Base.Outcome.{Outcome, returned, raised}
use food_order_system.Retrieval.Reranker.{Reranker, init, first_load, ensure_loaded}

module _ {M : Type 0} (load : ℕ → Outcome M) where
  -- The loads at a series of times, and the last state.
  unfoldable pub load_all : List ℕ → Reranker M → List (Outcome M) × Reranker M
  load_all [] r = ([], r)
  load_all (now ∷ times) r =
      let (o, r1) = ensure_loaded load now r in let (os, r2) = load_all times r1 in (o ∷ os, r2)

  -- Every outcome of a series is that of the first load, up to the message of a failure.
  abbrev pub Repeats : Outcome M → List (Outcome M) → Type 0
  Repeats first [] = Unit
  Repeats (returned m) (o ∷ os) = (o ≡ returned m) × Repeats (returned m) os
  Repeats (raised e) (o ∷ os) = ((d : String) × (o ≡ raised d)) × Repeats (raised e) os

  loaded-Repeats :
      (times : List ℕ) (m : M) (b : Bool)
      → Repeats (returned m) (load_all times (record { model = some m; load_failed = b })).0
  unfolding load_all ensure_loaded
  loaded-Repeats [] m b = tt
  loaded-Repeats (now ∷ times) m b = (refl, loaded-Repeats times m b)

  failed-Repeats :
      (times : List ℕ) (e : String)
      → Repeats (raised e) (load_all times (record { model = none; load_failed = true })).0
  unfolding load_all ensure_loaded
  failed-Repeats [] e = tt
  failed-Repeats (now ∷ times) e = (("previously failed to load", refl), failed-Repeats times e)

  Repeats-of_load :
      (now : ℕ) (times : List ℕ) (o : Outcome M)
      → load now ≡ o
      → Repeats o (load_all (now ∷ times) init).0
  unfolding load_all ensure_loaded first_load init
  Repeats-of_load now times (returned m) h = rw (h, first_load) (refl, loaded-Repeats times m false)
  Repeats-of_load now times (raised e) h = rw (h, first_load) ((e, refl), failed-Repeats times e)

  -- A new reranker loads its model at its first use, and every later use meets the outcome of that
  -- one load: the same model, or a failure again, whatever another load would have given.
  pub load_all-Repeats :
      (now : ℕ) (times : List ℕ) → Repeats (load now) (load_all (now ∷ times) init).0
  load_all-Repeats now times = Repeats-of_load now times (load now) refl
