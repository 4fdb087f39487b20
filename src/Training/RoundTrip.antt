-- ===== src/Training/RoundTrip.antt =====
-- What is written is what is read: the files of examples, and what the command leaves.
use Prim.Native.Char.{code}
use Prim.Native.String.{◌++◌ as append}
use text.Mathlib.TextLemmas.{nil-append, cons-append}
use mathlib.Core.List.{append_assoc, append-nil}
use food_order_system.Base.{
  ℕ, ◌+◌, ◌≡◌, refl, ap, sym, ◌∙◌, String, string_eq, Bool, false, ◌||◌, Bool-cases, none, some,
  List, [], ◌∷◌, ◌++◌, In, arith, ◌==◌, ==_iff, is_blank, strip, count, select, inl, inr,
}
use food_order_system.Base.Dict
use food_order_system.Base.Dict.{Dict, get-put}
use food_order_system.Base.Outcome.{Outcome, returned}
use food_order_system.Training.{Example}
use food_order_system.Training.Files.{
  is_newline, lines_of, save_as_jsonl, load_lines, load_jsonl, zero_counts, count_labels,
  iter_counts,
}
use food_order_system.Training.Balance.{labelled}
use food_order_system.Training.Templates.{intent_labels}

abbrev pub has_newline : String → Bool
has_newline String.[] = false
has_newline (String.◌∷◌ c s) = is_newline (code c) || has_newline s

lines_of-line :
    (line rest : String)
    → has_newline line ≡ false
    → lines_of (append (append line "\n") rest) ≡ line ∷ lines_of rest
unfolding lines_of
lines_of-line String.[] rest h = rw (nil-append "\n", cons-append, nil-append rest) refl
lines_of-line (String.◌∷◌ c s) rest h =
    let here : is_newline (code c) ≡ false = ground (arith, h) in
    let there : has_newline s ≡ false = ground (arith, h) in
    rw (cons-append c s "\n", cons-append c (append s "\n") rest, here, lines_of-line s rest there)
      refl

module _ {V : Type 0} (dumps : V → String) (loads : String → Outcome V) where
  -- json writes an object in one line without white space around it, and reads it back.
  abbrev pub IsJson : Type 0
  IsJson =
      (v : V)
      → (loads (dumps v) ≡ returned v)
        × (strip (dumps v) ≡ dumps v)
        × (is_blank (dumps v) ≡ false)
        × (has_newline (dumps v) ≡ false)

  load-save_from :
      IsJson
      → (rs out : List V)
      → load_lines loads (lines_of (save_as_jsonl dumps rs)) out ≡ returned (out ++ rs)
  unfolding save_as_jsonl load_lines lines_of
  load-save_from json [] out = ap returned (sym (append-nil out))
  load-save_from json (r ∷ rs) out =
      let (same, stripped, full, line) = json r in
      let start : lines_of (save_as_jsonl dumps (r ∷ rs))
          ≡ dumps r ∷ lines_of (save_as_jsonl dumps rs) =
        lines_of-line (dumps r) (save_as_jsonl dumps rs) line in
      rw (start, stripped, full, same, load_lines)
        (load-save_from json rs (out ++ r ∷ []) ∙ ap returned (append_assoc out (r ∷ []) rs))

  -- With a json that writes one line for each record and reads it back, a file of any records is read
  -- back as these records.
  pub load_jsonl-save :
      IsJson → (rs : List V) → load_jsonl loads (save_as_jsonl dumps rs) ≡ returned rs
  unfolding load_jsonl
  load_jsonl-save json rs = load-save_from json rs []

abbrev counts_of_dict : Dict String ℕ → String → ℕ
counts_of_dict counts label = elim (Dict.get counts label) [ none ↦ 0 | some n ↦ n ]

count_labels-get :
    (rs : List Example) (counts : Dict String ℕ) (label : String) (n : ℕ)
    → Dict.get counts label ≡ some n
    → Dict.get (count_labels rs counts) label ≡ some (n + count (labelled label) rs)
unfolding count_labels select
count_labels-get [] counts label n h = ground (arith, h)
count_labels-get (r ∷ rs) counts label n h =
    let before = counts_of_dict counts r.label in
    let next = Dict.put counts r.label (before + 1) in
    let put = get-put counts r.label label (before + 1) in
    elim (Bool-cases (r.label == label)) [
      | inl e ↦
          let at : Dict.get counts r.label ≡ some n =
            ap (Dict.get counts) ((==_iff r.label label).0 e) ∙ h in
          let now : Dict.get next label ≡ some (n + 1) = put ∙ rw (e, at, counts_of_dict) refl in
          count_labels-get rs next label (n + 1) now ∙ rw e (ap some (omega arith))
      | inr e ↦ count_labels-get rs next label n (put ∙ rw e h) ∙ rw e refl
    ]

zero_counts-get :
    (labels : List String) (label : String)
    → In label labels
    → Dict.get (zero_counts labels) label ≡ some 0
unfolding zero_counts Dict.get
zero_counts-get [] label m = absurd m
zero_counts-get (l ∷ ls) label (inl e) = ground (arith, e, ==_iff l label)
zero_counts-get (l ∷ ls) label (inr m) = ground (arith, zero_counts-get ls label m)

-- The printed count of each of the nine labels is the number of its examples.
pub iter_counts-get :
    (rs : List Example) (label : String)
    → In label intent_labels
    → Dict.get (iter_counts rs) label ≡ some (count (labelled label) rs)
unfolding iter_counts
iter_counts-get rs label m =
    count_labels-get rs (zero_counts intent_labels) label 0 (zero_counts-get intent_labels label m)
    ∙ ap some (omega arith)
