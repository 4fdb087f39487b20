-- ===== src/Training/Escaped.antt =====
-- An encoding of examples in one line each, and its inverse: texts with escapes for the ends of lines.
-- The theorems on files run on it.
use Prim.Native.Char.{Char, char, code}
use text.Mathlib.TextEquality.{Char-path}
use food_order_system.Base.{
  ◌≡◌, refl, ap, sym, ◌∙◌, String, Bool, true, false, arith, if◌then◌else◌, nat_beq, nat_beq_iff,
  is_blank, strip, lstrip, rstrip, is_space, Bool-cases, inl, inr,
}
use food_order_system.Base.Outcome.{Outcome, returned}
use food_order_system.Training.{Example}
use food_order_system.Training.Files.{is_newline}
use food_order_system.Training.RoundTrip.{IsJson, has_newline}

-- The characters of the code: `{`, `}`, `n`, `r`, `c` before a character as it is, `e` at the end.
abbrev encode : String → String → String
encode String.[] after = String.◌∷◌ (char 101 tt) after
encode (String.◌∷◌ c s) after =
    let rest = encode s after in
    if nat_beq (code c) 10
    then String.◌∷◌ (char 110 tt) rest
    else if nat_beq (code c) 13
    then String.◌∷◌ (char 114 tt) rest
    else String.◌∷◌ (char 99 tt) (String.◌∷◌ c rest)

abbrev prepend : Char → String × String → String × String
prepend c p = (String.◌∷◌ c p.0, p.1)

-- The text that is encoded, and what comes after it; the flag says that the next character is as it is.
abbrev decode : Bool → String → String × String
decode plain String.[] = ("", "")
decode true (String.◌∷◌ c s) = prepend c (decode false s)
decode false (String.◌∷◌ c s) =
    let (rest, as_is) : (String × String) × (String × String) = (decode false s, decode true s) in
    if nat_beq (code c) 101
    then ("", s)
    else if nat_beq (code c) 110
    then prepend (char 10 tt) rest
    else if nat_beq (code c) 114
    then prepend (char 13 tt) rest
    else as_is

decode-encode : (s after : String) → decode false (encode s after) ≡ (s, after)
decode-encode String.[] after = refl
decode-encode (String.◌∷◌ c s) after = elim (Bool-cases (nat_beq (code c) 10)) [
  | inl e ↦
      let same : char 10 tt ≡ c = Char-path (char 10 tt) c (sym ((nat_beq_iff (code c) 10).0 e)) in
      rw e (ap (prepend (char 10 tt)) (decode-encode s after) ∙ ap (λ d. prepend d (s, after)) same)
  | inr e ↦ elim (Bool-cases (nat_beq (code c) 13)) [
    | inl f ↦
        let same : char 13 tt ≡ c =
          Char-path (char 13 tt) c (sym ((nat_beq_iff (code c) 13).0 f)) in
        rw (e, f)
          (ap (prepend (char 13 tt)) (decode-encode s after) ∙ ap (λ d. prepend d (s, after)) same)
    | inr f ↦ rw (e, f) (ap (prepend c) (decode-encode s after))
  ]
]

-- A text without an end of a line, whose last character is not white space.
abbrev IsLine : String → Type 0
IsLine s = (rstrip s ≡ s) × (is_blank s ≡ false) × (has_newline s ≡ false)

IsLine-cons :
    (c : Char) (s : String) → is_newline (code c) ≡ false → IsLine s → IsLine (String.◌∷◌ c s)
unfolding rstrip is_blank
IsLine-cons c s h line = (ground (arith, line.0, line.1), refl, rw (h, line.2) refl)

encode-IsLine : (s after : String) → IsLine after → IsLine (encode s after)
encode-IsLine String.[] after line = IsLine-cons (char 101 tt) after refl line
encode-IsLine (String.◌∷◌ c s) after line =
    let rest = encode-IsLine s after line in
    elim (Bool-cases (nat_beq (code c) 10)) [
      | inl e ↦ rw e (IsLine-cons (char 110 tt) (encode s after) refl rest)
      | inr e ↦ elim (Bool-cases (nat_beq (code c) 13)) [
        | inl f ↦ rw (e, f) (IsLine-cons (char 114 tt) (encode s after) refl rest)
        | inr f ↦
            rw (e, f)
              (IsLine-cons (char 99 tt) (String.◌∷◌ c (encode s after)) refl
                (IsLine-cons c (encode s after) (rw (e, f) refl) rest))
      ]
    ]

abbrev pub dumps : Example → String
dumps r = String.◌∷◌ (char 123 tt) (encode r.text (encode r.label "}"))

abbrev tail : String → String
tail String.[] = ""
tail (String.◌∷◌ c s) = s

abbrev pub loads : String → Outcome Example
loads line =
    let (text, rest) = decode false (tail line) in
    returned (record { text = text; label = (decode false rest).0 })

pub escaped-IsJson : IsJson dumps loads
unfolding strip lstrip is_space is_blank
escaped-IsJson r =
    let after = encode r.label "}" in
    let end : IsLine "}" = (refl, refl, refl) in
    let body = encode-IsLine r.text after (encode-IsLine r.label "}" end) in
    let all = IsLine-cons (char 123 tt) (encode r.text after) refl body in
    (rw (decode-encode r.text after, decode-encode r.label "}") refl, all.0, refl, all.2)
