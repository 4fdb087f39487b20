-- ===== src/Training/Balance.antt =====
-- The generated examples: as many for each label.
use food_order_system.Base.{
  ℕ, zero, suc, ◌+◌, ◌*◌, ◌≡◌, refl, ap, sym, ◌∙◌, String, string_eq, Bool, true, false, not, ◌&&◌,
  Option, none, some, List, [], ◌∷◌, ◌++◌, In, All, All-every, every, arith, ◌==◌, ==_iff,
  if◌then◌else◌, length, select, count, count-append, count_of_All, length-append, is_blank, strip,
  inl, inr,
}
use mathlib.Core.Path.{subst}
use mathlib.Core.List.{append_assoc, append-nil}
use food_order_system.Base.Dict
use food_order_system.Training.{
  done, Example, Random, fill_template, one_example, examples_for, label_examples, all_labels,
  generate_dataset,
}
use food_order_system.Training.Texts.{has_ink, ink-strip}
use food_order_system.Training.Filling.{All-In, fill_slots-IsDone, slots-IsSlot}
use food_order_system.Training.Templates.{intent_labels, slot_values, templates}

abbrev pub labelled : String → Example → Bool
labelled label r = r.label == label

abbrev pub is_void : Example → Bool
is_void r = is_blank r.text

-- An example of a label, with a text.
abbrev IsOf : String → Example → Type 0
IsOf label r = (r.label ≡ label) × (is_void r ≡ false)

-- The templates of a label: at least one, and none is blank.
abbrev has_templates : Option (List String) → Bool
has_templates none = false
has_templates (some []) = false
has_templates (some (t ∷ ts)) = every has_ink (t ∷ ts)

abbrev is_covered : String → Bool
is_covered label = has_templates (Dict.get templates label)

labels_are_covered : every is_covered intent_labels ≡ true
unfolding Dict.get has_ink
labels_are_covered = refl

-- `n` for every time that the label is listed.
abbrev share : ℕ → String → List String → ℕ
share n label [] = 0
share n label (l ∷ ls) = (if l == label then n else 0) + share n label ls

abbrev total : ℕ → List String → ℕ
total n [] = 0
total n (l ∷ ls) = n + total n ls

abbrev is_distinct : List String → Bool
is_distinct [] = true
is_distinct (l ∷ ls) = every (λ k. not (k == l)) ls && is_distinct ls

share_absent :
    (n : ℕ) (l : String) (ls : List String) → every (λ k. not (k == l)) ls ≡ true → share n l ls ≡ 0
share_absent n l [] h = refl
share_absent n l (k ∷ ks) h = ground (arith, h, share_absent n l ks)

absent_not-In :
    (k l : String) (ls : List String)
    → every (λ j. not (j == k)) ls ≡ true
    → In l ls
    → (k == l) ≡ false
absent_not-In k l [] h m = absurd m
absent_not-In k l (j ∷ js) h (inl e) = ground (arith, h, e, ==_iff k l, ==_iff j k)
absent_not-In k l (j ∷ js) h (inr m) = ground (arith, h, absent_not-In k l js, m)

share_once :
    (n : ℕ) (l : String) (ls : List String) → is_distinct ls ≡ true → In l ls → share n l ls ≡ n
share_once n l [] h m = absurd m
share_once n l (k ∷ ks) h (inl e) =
    let absent : every (λ j. not (j == k)) ks ≡ true = ground (arith, h) in
    let zero_share : share n l ks ≡ 0 =
      share_absent n l ks (subst (λ x. every (λ j. not (j == x)) ks ≡ true) (sym e) absent) in
    ground (arith, zero_share, ==_iff k l, e)
share_once n l (k ∷ ks) h (inr m) = ground (arith, h, absent_not-In k l ks, m, share_once n l ks)

All-map :
    {P Q : Example → Type 0}
    → ((r : Example) → P r → Q r)
    → (rs : List Example) → All P rs
    → All Q rs
All-map f [] h = tt
All-map f (r ∷ rs) h = (f r h.0, All-map f rs h.1)

All-map_true : (rs : List Example) → All (λ r. true ≡ true) rs
All-map_true [] = tt
All-map_true (r ∷ rs) = (refl, All-map_true rs)

-- Lists with as many elements for every test are as long.
pub same_length :
    (xs ys : List Example)
    → ((p : Example → Bool) → count p xs ≡ count p ys)
    → length xs ≡ length ys
same_length xs ys h =
    sym (count_of_All (λ r. true) true xs (All-map_true xs))
    ∙ h (λ r. true)
    ∙ count_of_All (λ r. true) true ys (All-map_true ys)

module _ (random : Random) where
  open random use {Rng}

  one_example-done :
      (label tpl : String) (tpls : List String) (rng : Rng)
      → All (λ t. has_ink t ≡ true) (tpl ∷ tpls)
      → (r : Example) × (next : Rng) × (one_example random label tpl tpls rng ≡ done (r, next))
        × IsOf label r
  unfolding one_example fill_template
  one_example-done label tpl tpls rng ok =
      let (chosen, after) = random.choice tpl tpls rng in
      let (text, next, e, ink) = fill_slots-IsDone random slot_values chosen after slots-IsSlot in
      let inked : has_ink chosen ≡ true =
        All-In (λ t. has_ink t ≡ true) (tpl ∷ tpls) chosen ok (random.choice_in tpl tpls rng) in
      let full : is_blank (strip text) ≡ false = ink-strip text (ink inked) in
      (
        record { text = strip text; label = label },
        next,
        rw (e, one_example, full) refl,
        (refl, full),
      )

  examples_for-done :
      (n : ℕ) (label tpl : String) (tpls : List String) (acc : List Example) (rng : Rng)
      → All (λ t. has_ink t ≡ true) (tpl ∷ tpls)
      → (new : List Example) × (next : Rng) × (examples_for random n label tpl tpls acc rng
          ≡ done (acc ++ new, next))
        × (length new ≡ n)
        × All (IsOf label) new
  unfolding examples_for
  examples_for-done zero label tpl tpls acc rng ok =
      ([], rng, ap (λ l. done (l, rng)) (sym (append-nil acc)), refl, tt)
  examples_for-done (suc n) label tpl tpls acc rng ok =
      let (r, next, e, of) = one_example-done label tpl tpls rng ok in
      let (new, last, f, size, all) = examples_for-done n label tpl tpls (acc ++ r ∷ []) next ok in
      (
        r ∷ new,
        last,
        rw (e, examples_for) (f ∙ ap (λ l. done (l, last)) (append_assoc acc (r ∷ []) new)),
        ap suc size,
        (of, all),
      )

  -- What the loops append: for each label its share, and nothing without a text.
  abbrev IsBatch : ℕ → List String → List Example → Type 0
  IsBatch n labels new =
      ((l : String) → count (labelled l) new ≡ share n l labels)
      × (count is_void new ≡ 0)
      × (length new ≡ total n labels)

  label_examples-done :
      (n : ℕ) (label : String) (tpls : Option (List String)) (acc : List Example) (rng : Rng)
      → has_templates tpls ≡ true
      → (new : List Example) × (next : Rng) × (label_examples random n label tpls acc rng
          ≡ done (acc ++ new, next))
        × (length new ≡ n)
        × All (IsOf label) new
  unfolding label_examples
  label_examples-done n label none acc rng h = absurd (ground arith)
  label_examples-done n label (some []) acc rng h = absurd (ground arith)
  label_examples-done n label (some (t ∷ ts)) acc rng h =
      examples_for-done n label t ts acc rng
        (All-every (λ s. has_ink s ≡ true) has_ink (t ∷ ts) (λ s e. e) h)

  counts_of :
      (label l : String) (new : List Example)
      → All (IsOf label) new
      → (count (labelled l) new ≡ (if label == l then length new else 0)) × (count is_void new ≡ 0)
  counts_of label l new all = (
    count_of_All (labelled l) (label == l) new (All-map (λ r of. ap (λ k. k == l) of.0) new all),
    count_of_All is_void false new (All-map (λ r of. of.1) new all),
  )

  all_labels-done :
      (n : ℕ) (labels : List String) (acc : List Example) (rng : Rng)
      → every is_covered labels ≡ true
      → (new : List Example) × (next : Rng) × (all_labels random n labels acc rng
          ≡ done (acc ++ new, next))
        × IsBatch n labels new
  unfolding all_labels select
  all_labels-done n [] acc rng h =
      ([], rng, ap (λ l. done (l, rng)) (sym (append-nil acc)), ((λ l. refl), refl, refl))
  all_labels-done n (label ∷ labels) acc rng h =
      let here : is_covered label ≡ true = ground (arith, h) in
      let rest : every is_covered labels ≡ true = ground (arith, h) in
      let (new, next, e, size, all) =
        label_examples-done n label (Dict.get templates label) acc rng here in
      let (more, last, f, (by_label, no_void, long)) =
        all_labels-done n labels (acc ++ new) next rest in
      (
        new ++ more,
        last,
        rw (e, all_labels) (f ∙ ap (λ l. done (l, last)) (append_assoc acc new more)),
        (
          (λ l. ground (
            arith,
            count-append (labelled l) new more,
            by_label l,
            (counts_of label l new all).0,
            size,
          )),
          omega (arith, count-append is_void new more, no_void, (counts_of label label new all).1),
          omega (arith, length-append new more, size, long),
        ),
      )

  -- Whatever the generator of random numbers does, and for every number of examples for each label,
  -- the data set is generated without an error: it has exactly that many examples of each of the
  -- nine labels, none else, and none with an empty text.
  pub generate_dataset-balanced :
      (n_per_class seed : ℕ)
      → (records : List Example) × (generate_dataset random n_per_class seed ≡ done records)
        × ((l : String) → In l intent_labels → count (labelled l) records ≡ n_per_class)
        × (length records ≡ 9 * n_per_class)
        × (count is_void records ≡ 0)
  unfolding generate_dataset
  generate_dataset-balanced n seed =
      let (new, next, e, (by_label, no_void, long)) =
        all_labels-done n intent_labels [] (random.seeded seed) labels_are_covered in
      let kept = λ (p : Example → Bool). random.shuffle_count p new next in
      (
        random.shuffle new next,
        rw (e, generate_dataset) refl,
        (λ l m. kept (labelled l) ∙ by_label l ∙ share_once n l intent_labels refl m),
        omega (arith, same_length (random.shuffle new next) new kept, long),
        kept is_void ∙ no_void,
      )
