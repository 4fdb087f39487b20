-- ===== src/Training/Filling.antt =====
-- Every template is filled in finitely many steps, whatever the choices are.
use mathlib.Core.Path.{subst}
use food_order_system.Base.{
  ltb, not, ◌&&◌, every, All-every, ℕ, zero, suc, ◌<◌, ◌≤◌, ◌≡◌, refl, sym, String, Bool, true,
  false, List, [], ◌∷◌, In, All, arith, has_part, Bool-cases, inl, inr, is_empty,
}
use food_order_system.Base.Dict.{Dict}
use food_order_system.Training.{
  replace_first, Run, done, braces, token_of, Random, fill_slot, fill_values, fill_slots,
}
use food_order_system.Training.Texts.{has_ink, braces-replace, ink-replace}
use food_order_system.Training.Templates.{slot_values}

pub All-In : {A : Type 0} (P : A → Type 0) (xs : List A) (a : A) → All P xs → In a xs → P a
All-In P [] a h m = absurd m
All-In P (x ∷ xs) a h (inl e) = subst P (sym e) h.0
All-In P (x ∷ xs) a h (inr m) = All-In P xs a h.1 m

-- A value for a slot: it has fewer braces than the token of the slot, and some ink.
abbrev pub IsValue : String → String → Type 0
IsValue token v = (braces v < braces token) × (has_ink v ≡ true)

-- There is a value, and every one can stand for the token.
abbrev pub IsSlot : String × List String → Type 0
IsSlot slot = (is_empty slot.1 ≡ false) × All (IsValue (token_of slot.0)) slot.1

module _ (random : Random) where
  open random use {Rng}

  -- The run ends with a text that has ink if the first one has.
  abbrev pub IsDone : String → Run (String × Rng) → Type 0
  IsDone out r =
      (text : String) × (rng : Rng) × (r ≡ done (text, rng))
      × (has_ink out ≡ true → has_ink text ≡ true)

  fill_slot-IsDone :
      (fuel : ℕ) (token v : String) (vs : List String) (out : String) (rng : Rng)
      → braces out ≤ fuel
      → All (IsValue token) (v ∷ vs)
      → IsDone out (fill_slot random fuel token v vs out rng)
  unfolding fill_slot
  fill_slot-IsDone zero token v vs out rng le ok = elim (Bool-cases (has_part token out)) [
    | inl e ↦ absurd (omega (arith, braces-replace out token v e ok.0.0, le))
    | inr e ↦ (out, rng, rw e refl, λ h. h)
  ]
  fill_slot-IsDone (suc fuel) token v vs out rng le ok =
      let (value, next) = random.choice v vs rng in
      let (few, ink) : IsValue token value =
        All-In (IsValue token) (v ∷ vs) value ok (random.choice_in v vs rng) in
      elim (Bool-cases (has_part token out)) [
        | inl e ↦
            let shorter = replace_first out token value in
            let less : braces shorter ≤ fuel =
              omega (arith, braces-replace out token value e few, le) in
            let (text, last, same, keeps) = fill_slot-IsDone fuel token v vs shorter next less ok in
            (text, last, rw e same, λ h. keeps (ink-replace out token value e ink))
        | inr e ↦ (out, rng, rw e refl, λ h. h)
      ]

  fill_values-IsDone :
      (token : String) (values : List String) (out : String) (rng : Rng)
      → is_empty values ≡ false
      → All (IsValue token) values
      → IsDone out (fill_values random token values out rng)
  unfolding fill_values
  fill_values-IsDone token [] out rng some_value ok = absurd (ground arith)
  fill_values-IsDone token (v ∷ vs) out rng some_value ok =
      fill_slot-IsDone (braces out) token v vs out rng (omega arith) ok

  -- For any slots of which each has values that can stand for its token, any template and any
  -- choices, the loops end without an error, and do not outlive a fuel of one step for each `{` of
  -- the text; a template that is not blank gives a text that is not blank.
  pub fill_slots-IsDone :
      (slots : Dict String (List String)) (out : String) (rng : Rng)
      → All IsSlot slots
      → IsDone out (fill_slots random slots out rng)
  unfolding fill_slots
  fill_slots-IsDone [] out rng ok = (out, rng, refl, λ h. h)
  fill_slots-IsDone ((slot, values) ∷ slots) out rng ok =
      let (text, next, e, ink) = fill_values-IsDone (token_of slot) values out rng ok.0.0 ok.0.1 in
      let (last, end, f, more) = fill_slots-IsDone slots text next ok.1 in
      (last, end, rw (e, fill_slots) f, λ h. more (ink h))

-- The values of the program can stand for the tokens of their slots.
abbrev good_value : String → String → Bool
good_value token v = ltb (braces v) (braces token) && has_ink v

abbrev good_slot : String × List String → Bool
good_slot slot = not (is_empty slot.1) && every (good_value (token_of slot.0)) slot.1

slots_are_good : every good_slot slot_values ≡ true
unfolding braces has_ink token_of
slots_are_good = refl

IsSlot-of_good : (slot : String × List String) → good_slot slot ≡ true → IsSlot slot
IsSlot-of_good slot h =
    let both : (is_empty slot.1 ≡ false) × (every (good_value (token_of slot.0)) slot.1 ≡ true) =
      ground (arith, h) in
    (
      both.0,
      All-every (IsValue (token_of slot.0)) (good_value (token_of slot.0)) slot.1
          (λ v e. ground (arith, e)) both.1,
    )

pub slots-IsSlot : All IsSlot slot_values
slots-IsSlot = All-every IsSlot good_slot slot_values IsSlot-of_good slots_are_good
