-- ===== src/Training/Files.antt =====
-- ai_service/training/fos_ai_training/intent/data.py: the files of examples, one object of json in each
-- line, and the command that writes them. A file is its text; json is an argument.
use Prim.Native.Char.{code}
use Prim.Native.String.{◌++◌ as append}
use food_order_system.Base.{
  ◌++◌, ℕ, ◌+◌, String, string_eq, Bool, ◌||◌, none, some, List, [], ◌∷◌, if◌then◌else◌, nat_beq,
  is_blank, strip,
}
use food_order_system.Base.Dict
use food_order_system.Base.Dict.{Dict}
use food_order_system.Base.Float.{Float}
use food_order_system.Base.Outcome.{Outcome, returned, raised}
use food_order_system.Training.{
  Run, done, failed, out_of_fuel, Example, Random, generate_dataset, split_dataset,
}
use food_order_system.Training.Templates.{intent_labels}

abbrev pub is_newline : ℕ → Bool
is_newline c = nat_beq c 10 || nat_beq c 13

-- The lines of a text, without their ends. What ends a line in two characters gives an empty line
-- more, which `load_jsonl` skips.
unfoldable pub lines_of : String → List String
lines_of String.[] = []
lines_of (String.◌∷◌ c s) =
    let rest = lines_of s in
    if is_newline (code c)
    then "" ∷ rest
    else elim rest [ [] ↦ String.◌∷◌ c "" ∷ [] | line ∷ lines ↦ String.◌∷◌ c line ∷ lines ]

module _ {V : Type 0} (dumps : V → String) where
  -- The text that `save_as_jsonl` writes.
  unfoldable pub save_as_jsonl : List V → String
  save_as_jsonl [] = ""
  save_as_jsonl (r ∷ rs) = append (append (dumps r) "\n") (save_as_jsonl rs)

module _ {V : Type 0} (loads : String → Outcome V) where
  -- The loop of `load_jsonl`.
  unfoldable pub load_lines : List String → List V → Outcome (List V)
  load_lines [] out = returned out
  load_lines (line ∷ lines) out =
      if is_blank (strip line) then load_lines lines out else elim (loads (strip line)) [
        | raised e ↦ raised e
        | returned v ↦ load_lines lines (out ++ v ∷ [])
      ]

  unfoldable pub load_jsonl : String → Outcome (List V)
  unfolding load_lines lines_of
  load_jsonl text = load_lines (lines_of text) []

unfoldable pub zero_counts : List String → Dict String ℕ
zero_counts [] = []
zero_counts (label ∷ labels) = (label, 0) ∷ zero_counts labels

unfoldable pub count_labels : List Example → Dict String ℕ → Dict String ℕ
count_labels [] counts = counts
count_labels (r ∷ rs) counts =
    let before : ℕ = elim (Dict.get counts r.label) [ none ↦ 0 | some n ↦ n ] in
    count_labels rs (Dict.put counts r.label (before + 1))

-- `_iter_counts`
unfoldable pub iter_counts : List Example → Dict String ℕ
unfolding zero_counts count_labels
iter_counts records = count_labels records (zero_counts intent_labels)

-- The arguments of the command, and what it leaves: the files that it wrote, and the counts that it
-- printed.
module _ (fl : Float) where
  pub record Args : Type 0 where
    pub out : String
    pub n : ℕ
    pub seed : ℕ
    pub val_frac : fl.F

pub record Report : Type 0 where
  pub files : List (String × String)
  pub counts : Dict String ℕ

module _ (random : Random) (fl : Float) (int : fl.F → ℕ) (dumps : Example → String)
    (val_path : String → String) where
  unfoldable pub write_files : Args fl → List Example → Run (List (String × String))
  unfolding save_as_jsonl
  write_files args records =
      if fl.leb_f args.val_frac fl.zero_f
      then done ((args.out, save_as_jsonl dumps records) ∷ [])
      else elim (split_dataset random fl int records args.val_frac args.seed) [
        | failed e ↦ failed e
        | out_of_fuel ↦ out_of_fuel
        | done (train, val) ↦ done (
            (args.out, save_as_jsonl dumps train)
            ∷ (val_path args.out, save_as_jsonl dumps val)
            ∷ [])
      ]

  unfoldable pub main : Args fl → Run Report
  unfolding write_files iter_counts
  main args = elim (generate_dataset random args.n args.seed) [
    | failed e ↦ failed e
    | out_of_fuel ↦ out_of_fuel
    | done records ↦ elim (write_files args records) [
      | failed e ↦ failed e
      | out_of_fuel ↦ out_of_fuel
      | done files ↦ done (record { files = files; counts = iter_counts records })
    ]
  ]
