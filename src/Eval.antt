-- ===== src/Eval.antt =====
-- ai_service/eval: the evaluation of the services offline. Here the results of a suite, and the metrics
-- of eval/metrics/retrieval.py and eval/metrics/generation.py.
pub mod Judge
pub mod Votes
pub mod Readings
pub mod Verdicts
pub mod Gates
pub mod Exit
pub mod ChatSuite
pub mod Scripted
pub mod Suites
pub mod Plans
pub mod Passing
mod Tests
use food_order_system.Base.{
  ℕ, zero, suc, ◌-◌, String, string_eq, nat_eq, Bool, true, false, not, ◌&&◌, Option, none, some,
  List, [], ◌∷◌, map, if◌then◌else◌, leb, ◌==◌, length, take, select, any, is_empty, count, ◌||◌,
}
use food_order_system.Base.Dict
use food_order_system.Base.Dict.{Dict}
use food_order_system.Base.Float.{Float}
use food_order_system.Base.Json.{Json, Fields, get_field}
use food_order_system.Base.Sort.{sort}
use food_order_system.Metrics.{sum_f}

-- `x in set(ids)`
unfoldable pub is_in : List ℕ → ℕ → Bool
is_in ids x = any (λ i. i == x) ids

module _ (fl : Float) where
  open fl use {F, zero_f, of_nat, add_f, div_f, leb_f}

  -- `RunResult`; a record of a failure is an object of json.
  pub record RunResult : Type 0 where
    pub suite : String
    pub n_cases : ℕ
    pub metrics : Dict String F
    pub failures : List Fields

  -- `1.0 if b else 0.0`
  unfoldable pub indicator : Bool → F
  indicator b = if b then of_nat 1 else zero_f

  unfoldable pub hit_at_k : List ℕ → List ℕ → ℕ → F
  unfolding indicator is_in
  hit_at_k ranked relevant k = indicator (any (is_in relevant) (take k ranked))

  -- The loop of `reciprocal_rank`; `idx` is the rank of the next item.
  unfoldable pub reciprocal_from : ℕ → List ℕ → List ℕ → F
  unfolding is_in
  reciprocal_from idx [] relevant = zero_f
  reciprocal_from idx (item ∷ ranked) relevant =
      let rest = reciprocal_from (suc idx) ranked relevant in
      if is_in relevant item then div_f (of_nat 1) (of_nat idx) else rest

  unfoldable pub reciprocal_rank : List ℕ → List ℕ → F
  unfolding reciprocal_from
  reciprocal_rank ranked relevant = reciprocal_from 1 ranked relevant

  module _ (log2 : F → F) where
    -- A gain that is not positive adds nothing.
    unfoldable pub dcg_from : F → ℕ → List ℕ → Dict ℕ F → F
    dcg_from acc idx [] relevance = acc
    dcg_from acc idx (item ∷ top) relevance =
        let gain : F = elim (Dict.get relevance item) [ none ↦ zero_f | some g ↦ g ] in
        let more = add_f acc (div_f gain (log2 (of_nat (suc idx)))) in
        dcg_from (if leb_f gain zero_f then acc else more) (suc idx) top relevance

    unfoldable pub ideal_from : F → ℕ → List F → F
    ideal_from acc idx [] = acc
    ideal_from acc idx (gain ∷ gains) =
        ideal_from (add_f acc (div_f gain (log2 (of_nat (suc idx))))) (suc idx) gains

    unfoldable pub positive_gains : Dict ℕ F → List F
    positive_gains relevance =
        sort (λ a b. leb_f b a) (select (λ g. not (leb_f g zero_f)) (map (λ e. e.1) relevance))

    unfoldable pub ndcg_at_k : List ℕ → Dict ℕ F → ℕ → F
    unfolding dcg_from ideal_from positive_gains
    ndcg_at_k ranked relevance k =
        let dcg = dcg_from zero_f 1 (take k ranked) relevance in
        let gains = positive_gains relevance in
        let ideal = ideal_from zero_f 1 (take k gains) in
        if leb k 0 || is_empty ranked
        then zero_f
        else if is_empty gains
        then zero_f
        else if leb_f ideal zero_f && leb_f zero_f ideal
        then zero_f
        else div_f dcg ideal

  unfoldable pub mean : List F → F
  unfolding sum_f
  mean values = if is_empty values then zero_f else div_f (sum_f fl values) (of_nat (length values))

  -- `show` is `str(d.get(f))`.
  module _ (show : Option Json → String) where
    unfoldable pub same_field : Fields → Fields → String → Bool
    same_field pred expected f = show (get_field pred f) == show (get_field expected f)

    unfoldable pub exact_match : Fields → Fields → List String → F
    unfolding same_field
    exact_match pred expected fields =
        if is_empty fields
        then of_nat 1
        else div_f (of_nat (count (same_field pred expected) fields)) (of_nat (length fields))

    unfoldable pub field_scores : Fields → Fields → List String → Dict String F → Dict String F
    unfolding same_field indicator
    field_scores pred expected [] out = out
    field_scores pred expected (f ∷ fields) out =
        field_scores pred expected fields (Dict.put out f (indicator (same_field pred expected f)))

    unfoldable pub field_f1 : Fields → Fields → List String → Dict String F
    unfolding field_scores sum_f
    field_f1 pred expected fields =
        let out = field_scores pred expected fields [] in
        if is_empty fields
        then ("_mean", of_nat 1) ∷ []
        else Dict.put out "_mean" (div_f (sum_f fl (map (λ e. e.1) out)) (of_nat (length fields)))
