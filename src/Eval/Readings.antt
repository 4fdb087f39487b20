-- ===== src/Eval/Readings.antt =====
-- What the judge reads from a reply: a score on the scale, none, or json that escapes its handler.

use food_order_system.Base.{
  ◌≤◌, ◌≡◌, ◌⊎◌, refl, String, Bool, true, false, Option, none, some, arith, leb, is_blank, strip,
  Bool-cases, Option-cases, inl, inr,
}
use food_order_system.Base.Int.{pos, negsuc}
use food_order_system.Base.Json.{
  Json, null, boolean, int, decimal, str, arr, obj, Fields, get_field,
}
use food_order_system.Base.Outcome.{Outcome, returned, raised}
use food_order_system.Eval.Judge.{
  Reader, Cast, cast, caught, uncaught, Reading, in_scale, read_number, read_json, search_score,
  parse_score,
}

abbrev pub is_object : Json → Bool
is_object (obj fields) = true
is_object _ = false

-- A score that was read is on the scale.
abbrev pub IsOnScale : Reading → Type 0
IsOnScale r = elim r.0 as (λ o. Type 0) [ none ↦ Unit | some n ↦ n ≤ 5 ]

module _ (reader : Reader) where
  open reader use {loads, to_int, display, find_score, digits}

  pub search_score-IsOnScale : (raw : String) → IsOnScale (search_score reader raw)
  unfolding search_score
  search_score-IsOnScale raw = elim (Option-cases (find_score raw)) [
    | inl e ↦ rw (e, search_score) tt
    | inr (group, e) ↦ elim (Option-cases (digits group)) [
      | inl f ↦ rw (e, f, search_score) tt
      | inr (n, f) ↦ elim (Bool-cases (leb n 5)) [
        | inl le ↦ rw (e, f, le, search_score) (ground (arith, le))
        | inr gt ↦ rw (e, f, gt, search_score) tt
      ]
    ]
  ]

  -- The text of a reply is json that escapes the handler with this exception: it is no object, or the
  -- conversion of its score fails in a way that is not caught.
  abbrev pub Escapes : String → String → Type 0
  Escapes raw e =
      (v : Json) × (loads (strip raw) ≡ some v)
      × (((is_object v ≡ false) × (e ≡ "AttributeError"))
          ⊎ ((fields : Fields) × (v ≡ obj fields)
              × (to_int (get_field fields "score") ≡ uncaught e)))

  -- A score in a reading that is answered is on the scale, and an exception is one that escapes.
  abbrev pub IsRead : (String → Type 0) → Outcome Reading → Type 0
  IsRead escape o = elim o as (λ x. Type 0) [ raised e ↦ escape e | returned r ↦ IsOnScale r ]

  read_number-IsRead :
      (back : Reading) (rationale : Option Json) (c : Cast)
      → IsOnScale back
      → IsRead (λ e. c ≡ uncaught e) (read_number reader back rationale c)
  unfolding read_number in_scale
  read_number-IsRead back rationale (uncaught e) ok = refl
  read_number-IsRead back rationale caught ok = ok
  read_number-IsRead back rationale (cast (negsuc n)) ok = ok
  read_number-IsRead back rationale (cast (pos n)) ok = elim (Bool-cases (leb n 5)) [
    | inl le ↦ rw (le, read_number) (ground (arith, le))
    | inr gt ↦ rw (gt, read_number) ok
  ]

  pub IsRead-weaken :
      (P Q : String → Type 0) (o : Outcome Reading)
      → ((e : String) → P e → Q e)
      → IsRead P o
      → IsRead Q o
  IsRead-weaken P Q (raised e) f h = f e h
  IsRead-weaken P Q (returned r) f h = h

  read_json-IsRead :
      (raw : String) (back : Reading) (v : Json)
      → IsOnScale back
      → loads (strip raw) ≡ some v
      → IsRead (Escapes raw) (read_json reader back v)
  unfolding read_json
  read_json-IsRead raw back (obj fields) ok h =
      let number = to_int (get_field fields "score") in
      let rationale = get_field fields "rationale" in
      IsRead-weaken (λ e. number ≡ uncaught e) (Escapes raw)
        (read_number reader back rationale number) (λ e q. (obj fields, h, inr (fields, refl, q)))
        (read_number-IsRead back rationale number ok)
  read_json-IsRead raw back null ok h = (null, h, inl (refl, refl))
  read_json-IsRead raw back (boolean b) ok h = (boolean b, h, inl (refl, refl))
  read_json-IsRead raw back (int n) ok h = (int n, h, inl (refl, refl))
  read_json-IsRead raw back (decimal n k) ok h = (decimal n k, h, inl (refl, refl))
  read_json-IsRead raw back (str t) ok h = (str t, h, inl (refl, refl))
  read_json-IsRead raw back (arr xs) ok h = (arr xs, h, inl (refl, refl))

  pub parse_score-IsRead : (raw : String) → IsRead (Escapes raw) (parse_score reader raw)
  unfolding parse_score
  parse_score-IsRead raw =
      let back = search_score reader (strip raw) in
      let ok : IsOnScale back = search_score-IsOnScale (strip raw) in
      elim (Bool-cases (is_blank (strip raw))) [
        | inl e ↦ rw (e, parse_score) tt
        | inr e ↦ elim (Option-cases (loads (strip raw))) [
          | inl f ↦ rw (e, f, parse_score) ok
          | inr (v, f) ↦ rw (e, f, parse_score) (read_json-IsRead raw back v ok f)
        ]
      ]
