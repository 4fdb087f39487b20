-- ===== src/Training/Command.antt =====
-- The command that generates the data, from its arguments to its file.
use food_order_system.Base.{
  ℕ, ◌*◌, ◌≡◌, refl, ap, ◌∙◌, String, string_eq, true, some, List, [], ◌∷◌, In, length,
}
use food_order_system.Base.Dict
use food_order_system.Base.Float.{Float}
use food_order_system.Base.Outcome.{Outcome, returned}
use food_order_system.Training.{done, Example, Random}
use food_order_system.Training.Files.{
  Args, Report, main, write_files, save_as_jsonl, load_jsonl, iter_counts,
}
use food_order_system.Training.Balance.{generate_dataset-balanced}
use food_order_system.Training.RoundTrip.{IsJson, load_jsonl-save, iter_counts-get}
use food_order_system.Training.Templates.{intent_labels}

module _ (random : Random) (fl : Float) (int : fl.F → ℕ) (dumps : Example → String)
    (loads : String → Outcome Example) (val_path : String → String) where
  -- Without a validation part, the command ends without an error and writes one file. What
  -- `load_jsonl` reads from it are nine times `n` examples, and the count that the command prints for
  -- each of the nine labels is `n`.
  pub main_lem :
      IsJson dumps loads
      → (args : Args fl) → fl.leb_f args.val_frac fl.zero_f ≡ true
      → (text : String) × (report : Report) × (records : List Example) × (main random fl int dumps
            val_path args
          ≡ done report)
        × (report.files ≡ (args.out, text) ∷ [])
        × (load_jsonl loads text ≡ returned records)
        × (length records ≡ 9 * args.n)
        × ((l : String) → In l intent_labels → Dict.get report.counts l ≡ some args.n)
  unfolding main write_files
  main_lem json args whole =
      let (records, made, each, size, _) = generate_dataset-balanced random args.n args.seed in
      let text = save_as_jsonl dumps records in
      (
        text,
        record { files = (args.out, text) ∷ []; counts = iter_counts records },
        records,
        rw (made, whole, main, write_files) refl,
        refl,
        load_jsonl-save dumps loads json records,
        size,
        (λ l m. iter_counts-get records l m ∙ ap some (each l m)),
      )
