-- ===== src/Eval/Gates.antt =====
-- ai_service/src/fos_ai/eval/run.py: the command of the evaluation, its quality gates and its report.
-- The four runners, the printing of numbers and git are arguments.
use food_order_system.Base.{
  ℕ, min, String, string_eq, nat_eq, Bool, Option, none, some, List, [], ◌∷◌, ◌++◌, map,
  if◌then◌else◌, ◌==◌, every, is_empty, join, length, take, strip,
}
use food_order_system.Base.Dict
use food_order_system.Base.Dict.{Dict}
use food_order_system.Base.Float.{Float}
use food_order_system.Base.Json.{Json, Fields, obj}
use food_order_system.Base.Outcome.{Outcome, returned, raised}
use food_order_system.Eval.{RunResult}

-- `_GATES`, in hundredths.
abbrev pub gates : Dict String (Dict String ℕ)
gates =
    ("search", ("hit_at_5", 80) ∷ ("mrr", 60) ∷ ("ndcg_at_5", 65) ∷ [])
    ∷ ("recommend", ("pass_rate", 100) ∷ [])
    ∷ ("parse", ("restaurant_match", 100) ∷ ("confidence_pass_rate", 90) ∷ [])
    ∷ ("chat", ("tool_plan_match", 80) ∷ ("text_contains_rate", 80) ∷ [])
    ∷ []

abbrev pub all_suites : List String
all_suites = "search" ∷ "recommend" ∷ "parse" ∷ "chat" ∷ []

-- What `git rev-parse` gave: its return code and its output, or an `OSError`.
unfoldable pub git_sha : Option (ℕ × String) → String
git_sha none = "unknown"
git_sha (some (returncode, out)) = if returncode == 0 then strip out else "unknown"

-- `fixed` is `f"{v:.3f}"`, `show` the text of a number, `dumps` is `json.dumps`.
module _ (fl : Float) (fixed : fl.F → String) (show : ℕ → String) (dumps : Json → String) where
  open fl use {F, zero_f, of_nat, div_f, leb_f}

  unfoldable pub gates_of : String → Dict String ℕ
  gates_of suite = elim (Dict.get gates suite) [ none ↦ [] | some g ↦ g ]

  unfoldable pub threshold : ℕ → F
  threshold hundredths = div_f (of_nat hundredths) (of_nat 100)

  -- `metrics.get(key, 0.0)`
  unfoldable pub metric : Dict String F → String → F
  metric metrics key = elim (Dict.get metrics key) [ none ↦ zero_f | some v ↦ v ]

  unfoldable pub failed_gates : Dict String ℕ → Dict String F → List String
  unfolding threshold metric
  failed_gates [] metrics = []
  failed_gates ((key, minimum) ∷ rest) metrics =
      let more = failed_gates rest metrics in
      if leb_f (threshold minimum) (metric metrics key)
      then more
      else join ""
          (key ∷ "=" ∷ fixed (metric metrics key) ∷ " < gate " ∷ fixed (threshold minimum) ∷ [])
        ∷ more

  unfoldable pub gate_ok : String → Dict String F → Bool × List String
  unfolding gates_of failed_gates
  gate_ok suite metrics =
      let failed = failed_gates (gates_of suite) metrics in (is_empty failed, failed)

  -- The record that `_run_suite` makes of a result.
  pub record SuiteRecord : Type 0 where
    pub result : RunResult fl
    pub gate_passed : Bool
    pub gate_failures : List String

  unfoldable pub record_of : String → RunResult fl → SuiteRecord
  unfolding gate_ok
  record_of suite r =
      let (ok, failed) = gate_ok suite r.metrics in
      record { result = r; gate_passed = ok; gate_failures = failed }

  unfoldable pub metric_texts : Dict String F → List String
  metric_texts metrics = map (λ e. join "" (e.0 ∷ "=" ∷ fixed e.1 ∷ [])) metrics

  unfoldable pub summary_row : SuiteRecord → String
  unfolding metric_texts
  summary_row r = join "" (
      "| "
      ∷ r.result.suite
      ∷ " | "
      ∷ show r.result.n_cases
      ∷ " | "
      ∷ join ", " (metric_texts r.result.metrics)
      ∷ " | "
      ∷ (if r.gate_passed then "pass" else "FAIL")
      ∷ " |"
      ∷ [])

  unfoldable pub gate_lines : List String → List String
  gate_lines failed =
      if is_empty failed
      then []
      else ("Gate violations:" ∷ map (λ g. join "" ("- " ∷ g ∷ [])) failed) ++ "" ∷ []

  unfoldable pub failure_lines : List Fields → List String
  failure_lines failures =
      if is_empty failures
      then "_No per-case failures._" ∷ []
      else join "" ("Top " ∷ show (min 5 (length failures)) ∷ " failing cases:" ∷ [])
        ∷ map (λ f. join "" ("- `" ∷ dumps (obj f) ∷ "`" ∷ [])) (take 5 failures)

  unfoldable pub suite_lines : SuiteRecord → List String
  unfolding gate_lines failure_lines
  suite_lines r =
      (join "" ("## " ∷ r.result.suite ∷ []) ∷ "" ∷ [])
      ++ gate_lines r.gate_failures
      ++ failure_lines r.result.failures
      ++ "" ∷ []

  unfoldable pub all_suite_lines : List SuiteRecord → List String
  unfolding suite_lines
  all_suite_lines [] = []
  all_suite_lines (r ∷ rs) = suite_lines r ++ all_suite_lines rs

  -- `_render_report`
  unfoldable pub render_report : List SuiteRecord → String → String → Bool → String
  unfolding summary_row all_suite_lines
  render_report results sha timestamp all_pass =
      let lines : List String =
        (join "" ("# Eval Report — " ∷ timestamp ∷ [])
          ∷ ""
          ∷ join "" ("- Git SHA: `" ∷ sha ∷ "`" ∷ [])
          ∷ join "" ("- Overall: **" ∷ (if all_pass then "PASS" else "FAIL") ∷ "**" ∷ [])
          ∷ ""
          ∷ "## Summary"
          ∷ ""
          ∷ "| Suite | Cases | Metrics | Gate |"
          ∷ "|-------|-------|---------|------|"
          ∷ [])
        ++ map summary_row results
        ++ ("" ∷ [])
        ++ all_suite_lines results in
      join "" (join "\n" lines ∷ "\n" ∷ [])

  -- The runners on their cases; each may raise.
  pub record Runners : Type 0 where
    pub search : Outcome (RunResult fl)
    pub recommend : Outcome (RunResult fl)
    pub parse : Outcome (RunResult fl)
    pub chat : Outcome (RunResult fl)

  unfoldable pub run_named : Runners → String → Outcome (RunResult fl)
  run_named runners suite =
      if suite == "search"
      then runners.search
      else if suite == "recommend"
      then runners.recommend
      else if suite == "parse"
      then runners.parse
      else if suite == "chat"
      then runners.chat
      else raised (join "" ("unknown suite: " ∷ suite ∷ []))

  unfoldable pub run_suites : Runners → List String → Outcome (List SuiteRecord)
  unfolding run_named record_of
  run_suites runners [] = returned []
  run_suites runners (s ∷ ss) = elim (run_named runners s) [
    | raised e ↦ raised e
    | returned r ↦ elim (run_suites runners ss) [
      | raised e ↦ raised e
      | returned rs ↦ returned (record_of s r ∷ rs)
    ]
  ]

  -- `--suite`
  unfoldable pub suites_of : String → List String
  suites_of suite = if suite == "all" then all_suites else suite ∷ []

  -- The exit code, and the report that is written.
  unfoldable pub main : Runners → Option (ℕ × String) → String → String → Outcome (ℕ × String)
  unfolding suites_of run_suites render_report git_sha
  main runners git timestamp suite = elim (run_suites runners (suites_of suite)) [
    | raised e ↦ raised e
    | returned results ↦
        let all_pass = every (λ r. r.gate_passed) results in
        returned (if all_pass then 0 else 1, render_report results (git_sha git) timestamp all_pass)
  ]
