-- ===== src/Training.antt =====
-- ai_service/training/fos_ai_training/intent/data.py: the synthetic examples on which the classifier
-- of intents is trained. Python's generator of random numbers is an argument.
pub mod Templates
pub mod Texts
pub mod Filling
pub mod Balance
pub mod Files
pub mod RoundTrip
pub mod Splits
pub mod Command
pub mod Escaped
mod Tests
use Prim.Native.Char.{code}
use Prim.Native.String.{◌++◌ as append, len, slice}
use text.Mathlib.Text.{starts_with}
use food_order_system.Base.{
  ◌≡◌, In, select, ℕ, zero, suc, ◌+◌, ◌*◌, max, String, string_eq, Bool, not, ◌||◌, Option, none,
  some, List, [], ◌∷◌, ◌++◌, if◌then◌else◌, leb, nat_beq, is_blank, has_part, strip, join, take,
  drop, length,
}
use food_order_system.Base.Dict
use food_order_system.Base.Dict.{Dict}
use food_order_system.Base.Float.{Float}
use food_order_system.Training.Templates.{intent_labels, slot_values, templates}

-- What a run does: it ends with a value, it raises, or the loop outlives its fuel.
pub data Run {ℓ} (V : Type ℓ) : Type ℓ where
  done : V → Run V
  failed : String → Run V
  out_of_fuel : Run V

pub record Example : Type 0 where
  pub text : String
  pub label : String

-- How often `{` occurs in a text.
unfoldable pub braces : String → ℕ
braces String.[] = 0
braces (String.◌∷◌ c s) = if nat_beq (code c) 123 then suc (braces s) else braces s

-- `text.replace(token, value, 1)`
unfoldable pub replace_first : String → String → String → String
replace_first String.[] token value = if is_blank token then value else String.[]
replace_first (String.◌∷◌ c s) token value =
    let rest = replace_first s token value in
    if starts_with (String.◌∷◌ c s) token
    then append value (slice (String.◌∷◌ c s) (len token) (len (String.◌∷◌ c s)))
    else String.◌∷◌ c rest

-- `"{" + slot + "}"`
unfoldable pub token_of : String → String
token_of slot = append "{" (append slot "}")

-- Python's `random.Random`: the choice from a list with a head is one of the list, and a shuffle
-- keeps how many examples pass any test.
pub record Random : Type 1 where
  pub Rng : Type 0
  pub seeded : ℕ → Rng
  pub choice : String → List String → Rng → String × Rng
  pub shuffle : List Example → Rng → List Example
  pub choice_in : (v : String) (vs : List String) (r : Rng) → In (choice v vs r).0 (v ∷ vs)
  pub shuffle_count :
      (p : Example → Bool) (es : List Example) (r : Rng)
      → length (select p (shuffle es r)) ≡ length (select p es)

module _ (random : Random) where
  open random use {Rng, seeded, choice, shuffle}

  -- `while token in out`
  unfoldable pub fill_slot : ℕ → String → String → List String → String → Rng → Run (String × Rng)
  fill_slot zero token v vs out rng = if has_part token out then out_of_fuel else done (out, rng)
  fill_slot (suc fuel) token v vs out rng =
      let (value, next) = choice v vs rng in
      let rest = fill_slot fuel token v vs (replace_first out token value) next in
      if has_part token out then rest else done (out, rng)

  -- The loop of one slot, with a unit of fuel for every `{`.
  unfoldable pub fill_values : String → List String → String → Rng → Run (String × Rng)
  unfolding fill_slot braces
  fill_values token [] out rng =
      if has_part token out then failed "Cannot choose from an empty sequence" else done (out, rng)
  fill_values token (v ∷ vs) out rng = fill_slot (braces out) token v vs out rng

  unfoldable pub fill_slots : Dict String (List String) → String → Rng → Run (String × Rng)
  unfolding fill_values token_of
  fill_slots [] out rng = done (out, rng)
  fill_slots ((slot, values) ∷ slots) out rng = elim (fill_values (token_of slot) values out rng) [
    | done (text, next) ↦ fill_slots slots text next
    | failed e ↦ failed e
    | out_of_fuel ↦ out_of_fuel
  ]

  -- `_fill_template`
  unfoldable pub fill_template : String → Rng → Run (String × Rng)
  unfolding fill_slots
  fill_template tpl rng = fill_slots slot_values tpl rng

  -- The body of the inner loop of `generate_dataset`, on a list of templates with a head.
  unfoldable pub one_example : String → String → List String → Rng → Run (Example × Rng)
  unfolding fill_template
  one_example label tpl tpls rng =
      let (chosen, next) = choice tpl tpls rng in
      elim (fill_template chosen next) [
        | failed e ↦ failed e
        | out_of_fuel ↦ out_of_fuel
        | done (text, after) ↦
            if is_blank (strip text)
            then failed (join "" ("Empty text from template " ∷ chosen ∷ []))
            else done (record { text = strip text; label = label }, after)
      ]

  unfoldable pub examples_for :
      ℕ → String → String → List String → List Example → Rng → Run (List Example × Rng)
  unfolding one_example
  examples_for zero label tpl tpls records rng = done (records, rng)
  examples_for (suc n) label tpl tpls records rng = elim (one_example label tpl tpls rng) [
    | failed e ↦ failed e
    | out_of_fuel ↦ out_of_fuel
    | done (r, next) ↦ examples_for n label tpl tpls (records ++ r ∷ []) next
  ]

  -- `TEMPLATES[label]`, and the guard on an empty list.
  unfoldable pub label_examples :
      ℕ → String → Option (List String) → List Example → Rng → Run (List Example × Rng)
  unfolding examples_for
  label_examples n label none records rng = failed label
  label_examples n label (some []) records rng =
      failed (join "" ("No templates for label " ∷ label ∷ []))
  label_examples n label (some (tpl ∷ tpls)) records rng = examples_for n label tpl tpls records rng

  unfoldable pub all_labels : ℕ → List String → List Example → Rng → Run (List Example × Rng)
  unfolding label_examples
  all_labels n [] records rng = done (records, rng)
  all_labels n (label ∷ labels) records rng =
      elim (label_examples n label (Dict.get templates label) records rng) [
        | failed e ↦ failed e
        | out_of_fuel ↦ out_of_fuel
        | done (more, next) ↦ all_labels n labels more next
      ]

  unfoldable pub generate_dataset : ℕ → ℕ → Run (List Example)
  unfolding all_labels
  generate_dataset n_per_class seed = elim (all_labels n_per_class intent_labels [] (seeded seed)) [
    | failed e ↦ failed e
    | out_of_fuel ↦ out_of_fuel
    | done (records, rng) ↦ done (shuffle records rng)
  ]

  -- `int` is the truncation of a float.
  module _ (fl : Float) (int : fl.F → ℕ) where
    open fl use {F, zero_f, of_nat, mul_f, leb_f}

    -- `split_dataset`: the training part, then the validation part.
    unfoldable pub split_dataset : List Example → F → ℕ → Run (List Example × List Example)
    split_dataset records val_frac seed =
        let shuffled = shuffle records (seeded seed) in
        let cut = max 1 (int (mul_f (of_nat (length shuffled)) val_frac)) in
        if leb_f val_frac zero_f || leb_f (of_nat 1) val_frac
        then failed "val_frac must be in (0, 1)"
        else done (drop cut shuffled, take cut shuffled)
