-- ===== src/Base/Parts.antt =====
-- The parts of a text that is put together.
use Prim.Native.String.{String, ◌++◌ as append}
use text.Mathlib.Text.{starts_with}
use text.Mathlib.TextLemmas.{nil-append, cons-append, append-nil}
use text.Mathlib.TextPositions.{starts_with-append}
use mathlib.Core.Path.{◌≡◌, refl, ap, sym, ◌∙◌, subst}
use mathlib.Core.Bool.{true, false, not, ◌||◌}
use mathlib.Core.Logic.{inl, inr}
use mathlib.Core.List.{List, [], ◌∷◌}
use native.Mathlib.Omega.{arith}
use food_order_system.Base.Lists.{In, select, is_empty}
use food_order_system.Base.Tests.{Bool-cases}
use food_order_system.Base.Text.{has_part, is_blank, join}

starts_with-empty : (s : String) → starts_with s "" ≡ true
starts_with-empty s = subst (λ t. starts_with t "" ≡ true) (nil-append s) (starts_with-append "" s)

has_part-prefix : (p s : String) → has_part p (append p s) ≡ true
unfolding has_part is_blank
has_part-prefix String.[] String.[] = refl
has_part-prefix String.[] (String.◌∷◌ c s) =
    rw (nil-append (String.◌∷◌ c s))
      (ap (λ b. b || has_part "" s) (starts_with-empty (String.◌∷◌ c s)))
has_part-prefix (String.◌∷◌ d p) s =
    let whole = String.◌∷◌ d p in
    rw (cons-append d p s) (
      ap (λ b. b || has_part whole (append p s))
        (sym (ap (λ t. starts_with t whole) (cons-append d p s)) ∙ starts_with-append whole s))

has_part-append : (p a s : String) → has_part p s ≡ true → has_part p (append a s) ≡ true
unfolding has_part is_blank
has_part-append p String.[] s h = rw (nil-append s) h
has_part-append p (String.◌∷◌ c a) s h =
    rw (cons-append c a s) (ground (arith, has_part-append p a s h))

-- Every part is in what joins the parts.
pub has_part-join :
    (separator : String) (parts : List String) (p : String)
    → In p parts
    → has_part p (join separator parts) ≡ true
unfolding join
has_part-join separator [] p m = absurd m
has_part-join separator (s ∷ []) p (inl e) =
    rw e (subst (λ t. has_part s t ≡ true) (append-nil s) (has_part-prefix s ""))
has_part-join separator (s ∷ []) p (inr m) = absurd m
has_part-join separator (s ∷ t ∷ rest) p (inl e) =
    rw e (has_part-prefix s (append separator (join separator (t ∷ rest))))
has_part-join separator (s ∷ t ∷ rest) p (inr m) =
    has_part-append p s (append separator (join separator (t ∷ rest))) (
      has_part-append p separator (join separator (t ∷ rest))
        (has_part-join separator (t ∷ rest) p m))

join_cons : (s : String) (ss : List String) → join "" (s ∷ ss) ≡ append s (join "" ss)
unfolding join
join_cons s [] = sym (append-nil s)
join_cons s (t ∷ ss) = ap (append s) (nil-append (join "" (t ∷ ss)))

blank_eq : (s : String) → is_blank s ≡ true → s ≡ ""
unfolding is_blank
blank_eq String.[] h = refl
blank_eq (String.◌∷◌ c s) h = absurd (ground arith)

-- Empty parts add nothing to what is joined without a separator.
pub join-filled : (ss : List String) → join "" (select (λ s. not (is_blank s)) ss) ≡ join "" ss
unfolding select
join-filled [] = refl
join-filled (s ∷ ss) = elim (Bool-cases (is_blank s)) [
  | inl e ↦ rw e (
      join-filled ss
      ∙ sym (nil-append (join "" ss))
      ∙ ap (λ t. append t (join "" ss)) (sym (blank_eq s e))
      ∙ sym (join_cons s ss))
  | inr e ↦ rw e (
      join_cons s (select (λ t. not (is_blank t)) ss)
      ∙ ap (append s) (join-filled ss)
      ∙ sym (join_cons s ss))
]

append_filled : (s t : String) → is_blank s ≡ false → is_blank (append s t) ≡ false
unfolding is_blank
append_filled String.[] t h = absurd (ground arith)
append_filled (String.◌∷◌ c s) t h = rw (cons-append c s t) refl

-- Nothing is left of the parts exactly when what they join is empty.
pub filled-is_empty :
    (ss : List String) → is_empty (select (λ s. not (is_blank s)) ss) ≡ is_blank (join "" ss)
unfolding select is_blank join
filled-is_empty [] = refl
filled-is_empty (s ∷ ss) = elim (Bool-cases (is_blank s)) [
  | inl e ↦ rw e (
      filled-is_empty ss
      ∙ ap is_blank (
          sym (
            join_cons s ss
            ∙ ap (λ t. append t (join "" ss)) (blank_eq s e)
            ∙ nil-append (join "" ss))))
  | inr e ↦ rw e (sym (ap is_blank (join_cons s ss) ∙ append_filled s (join "" ss) e))
]
