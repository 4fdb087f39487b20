-- ===== src/Training/Tests.antt =====
-- Two small generators of random numbers: the code of
-- ai_service/training/fos_ai_training/intent/data.py at these.
use food_order_system.Base.{
  ◌/◌, ℕ, zero, suc, ◌+◌, ◌*◌, ◌≡◌, refl, String, string_eq, Bool, some, List, [], ◌∷◌, ◌++◌, In,
  arith, inl, inr, length, select, count, count-append, min, max, ◌/◌, has_part, is_blank,
}
use food_order_system.Base.Dict
use food_order_system.Base.Whole.{whole, tenths}
use food_order_system.Base.Outcome.{returned}
use food_order_system.Training.{
  done, Example, Random, fill_slots, split_dataset, generate_dataset, replace_first,
}
use food_order_system.Training.Filling.{IsDone, fill_slots-IsDone, slots-IsSlot}
use food_order_system.Training.Balance.{labelled, is_void, generate_dataset-balanced}
use food_order_system.Training.Splits.{split_dataset_lem}
use food_order_system.Training.Files.{Args, Report, main, load_jsonl}
use food_order_system.Training.Command.{main_lem}
use food_order_system.Training.Escaped.{dumps, loads, escaped-IsJson}
use food_order_system.Training.Templates.{intent_labels, slot_values}

-- The choice at a place that grows with every choice, or the last.
abbrev at : String → List String → ℕ → String
at v [] n = v
at v (w ∷ ws) zero = v
at v (w ∷ ws) (suc n) = at w ws n

at-In : (v : String) (vs : List String) (n : ℕ) → In (at v vs n) (v ∷ vs)
at-In v [] n = inl refl
at-In v (w ∷ ws) zero = inl refl
at-In v (w ∷ ws) (suc n) = inr (at-In w ws n)

abbrev turn : List Example → List Example
turn [] = []
turn (e ∷ es) = es ++ e ∷ []

turn_count :
    (p : Example → Bool) (es : List Example) → length (select p (turn es)) ≡ length (select p es)
unfolding select
turn_count p [] = refl
turn_count p (e ∷ es) = ground (arith, count-append p es (e ∷ []))

abbrev rising : Random
rising = record {
  Rng = ℕ;
  seeded = λ n. n;
  choice = λ v vs n. (at v vs n, suc n);
  shuffle = λ es n. turn es;
  choice_in = at-In;
  shuffle_count = λ p es n. turn_count p es;
}

abbrev example : String → String → Example
example t l = record { text = t; label = l }

fills :
    fill_slots rising slot_values "get me one {food} and one {food} for {price}" 0
    ≡ done ("get me one kung pao chicken and one mapo tofu for 20", 3)
unfolding fill_slots has_part replace_first is_blank
fills = refl

fill_slots-IsDone_example :
    IsDone rising "find {adj} {food}" (fill_slots rising slot_values "find {adj} {food}" 2)
fill_slots-IsDone_example = fill_slots-IsDone rising slot_values "find {adj} {food}" 2 slots-IsSlot

abbrev two : List Example
two = example "a" "order" ∷ example "b" "rating" ∷ []

split_dataset_example :
    (train : List Example) × (val : List Example) × (split_dataset rising tenths
        (λ n. n / 10)
        two
        5
        1
      ≡ done (train, val))
    × ((p : Example → Bool) → count p train + count p val ≡ count p two)
    × (length val ≡ min (max 1 (20 * 5 / 10 / 10)) 2)
split_dataset_example = split_dataset_lem rising tenths (λ n. n / 10) two 5 1 refl refl

generate_dataset-balanced_example :
    (records : List Example) × (generate_dataset rising 3 1 ≡ done records)
    × ((l : String) → In l intent_labels → count (labelled l) records ≡ 3)
    × (length records ≡ 9 * 3)
    × (count is_void records ≡ 0)
generate_dataset-balanced_example = generate_dataset-balanced rising 3 1

abbrev args : Args whole
args = record { out = "data.jsonl"; n = 2; seed = 1; val_frac = 0 }

main_lem_example :
    (text : String) × (report : Report) × (records : List Example) × (main rising whole
        (λ n. n)
        dumps
        (λ p. p)
        args
      ≡ done report)
    × (report.files ≡ ("data.jsonl", text) ∷ [])
    × (load_jsonl loads text ≡ returned records)
    × (length records ≡ 9 * 2)
    × ((l : String) → In l intent_labels → Dict.get report.counts l ≡ some 2)
main_lem_example = main_lem rising whole (λ n. n) dumps loads (λ p. p) escaped-IsJson args refl
