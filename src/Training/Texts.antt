-- ===== src/Training/Texts.antt =====
-- How replacing a token changes a text: the braces that are left, and what is not white space.
use Prim.Native.Char.{code}
use Prim.Native.String.{◌++◌ as append, len, slice}
use text.Mathlib.Text.{starts_with}
use text.Mathlib.TextEquality.{starts_with_iff}
use text.Mathlib.TextLemmas.{nil-append, cons-append}
use text.Mathlib.TextPositions.{len-append, slice-append_right}
use mathlib.Core.Path.{subst}
use food_order_system.Base.{
  ◌+◌, ◌<◌, ◌≡◌, refl, ap, sym, ◌∙◌, String, Bool, true, false, not, ◌||◌, arith, is_space,
  is_blank, has_part, strip, lstrip, rstrip, Bool-cases, inl, inr,
}
use food_order_system.Training.{braces, replace_first}

-- Some character is not white space.
unfoldable pub has_ink : String → Bool
unfolding is_space
has_ink String.[] = false
has_ink (String.◌∷◌ c s) = not (is_space (code c)) || has_ink s

braces-append : (s t : String) → braces (append s t) ≡ braces s + braces t
unfolding braces
braces-append String.[] t = rw (nil-append t) (omega arith)
braces-append (String.◌∷◌ c s) t = rw (cons-append c s t) (ground (arith, braces-append s t))

ink-append : (s t : String) → has_ink (append s t) ≡ (has_ink s || has_ink t)
unfolding has_ink
ink-append String.[] t = rw (nil-append t) refl
ink-append (String.◌∷◌ c s) t = rw (cons-append c s t) (ground (arith, ink-append s t))

-- A text that starts with a token is the token and what the slice after it gives.
starts-slice : (s t : String) → starts_with s t ≡ true → append t (slice s (len t) (len s)) ≡ s
starts-slice s t h =
    let (u, e) = (starts_with_iff s t).0 h in
    let cut : slice (append t u) (len t) (len (append t u)) ≡ u =
      ap (slice (append t u) (len t)) (len-append t u) ∙ slice-append_right t u in
    subst (λ w. append t (slice w (len t) (len w)) ≡ w) e (ap (append t) cut)

ink-lstrip : (s : String) → has_ink (lstrip s) ≡ has_ink s
unfolding has_ink lstrip
ink-lstrip String.[] = refl
ink-lstrip (String.◌∷◌ c s) = ground (arith, ink-lstrip s)

ink-rstrip : (s : String) → has_ink s ≡ true → is_blank (rstrip s) ≡ false
unfolding has_ink rstrip is_blank
ink-rstrip String.[] h = absurd (ground arith)
ink-rstrip (String.◌∷◌ c s) h = ground (arith, ink-rstrip s)

pub ink-strip : (s : String) → has_ink s ≡ true → is_blank (strip s) ≡ false
unfolding strip
ink-strip s h = ink-rstrip (lstrip s) (ink-lstrip s ∙ h)

-- A replacement by a text with fewer braces than the token leaves fewer braces.
pub braces-replace :
    (s token v : String)
    → has_part token s ≡ true
    → braces v < braces token
    → braces (replace_first s token v) < braces s
unfolding braces replace_first has_part is_blank
braces-replace String.[] String.[] v h lt = absurd (omega arith)
braces-replace String.[] (String.◌∷◌ d t) v h lt = absurd (ground arith)
braces-replace (String.◌∷◌ c s) token v h lt =
    let whole = String.◌∷◌ c s in
    let rest = slice whole (len token) (len whole) in
    elim (Bool-cases (starts_with whole token)) [
      | inl e ↦
          let count : braces whole ≡ braces token + braces rest =
            ap braces (sym (starts-slice whole token e)) ∙ braces-append token rest in
          rw e (omega (arith, count, braces-append v rest))
      | inr e ↦ rw e (ground (arith, braces-replace s token v, h))
    ]

pub ink-replace :
    (s token v : String)
    → has_part token s ≡ true
    → has_ink v ≡ true
    → has_ink (replace_first s token v) ≡ true
unfolding has_ink replace_first has_part is_blank
ink-replace String.[] String.[] v h k = k
ink-replace String.[] (String.◌∷◌ d t) v h k = absurd (ground arith)
ink-replace (String.◌∷◌ c s) token v h k =
    let whole = String.◌∷◌ c s in
    let rest = slice whole (len token) (len whole) in
    elim (Bool-cases (starts_with whole token)) [
      | inl e ↦ rw e (ink-append v rest ∙ ap (λ b. b || has_ink rest) k)
      | inr e ↦ rw e (ground (arith, ink-replace s token v, h))
    ]
