-- ===== src/Eval/Exit.antt =====
-- The exit code of the evaluation, against the gates.
use mathlib.Core.Path.{subst}
use food_order_system.Base.{
  ℕ, ◌≡◌, ◌↔◌, refl, sym, ◌∙◌, String, string_eq, true, false, Option, List, [], ◌∷◌, All, arith,
  every, is_empty, Bool-cases, inl, inr,
}
use food_order_system.Base.Dict.{Dict}
use food_order_system.Base.Float.{Float}
use food_order_system.Base.Json.{Json}
use food_order_system.Base.Outcome.{Outcome, returned, raised}
use food_order_system.Eval.{RunResult}
use food_order_system.Eval.Gates.{
  git_sha, render_report, gates_of, threshold, metric, failed_gates, SuiteRecord, record_of,
  Runners, run_named, run_suites, suites_of, main,
}

module _ (fl : Float) (fixed : fl.F → String) (show : ℕ → String) (dumps : Json → String) where
  -- Every gate of the suite is reached.
  abbrev pub IsReached : String → Dict String fl.F → Type 0
  IsReached suite metrics =
      All
        (λ g.
          fl.leb_f (threshold fl fixed show dumps g.1) (metric fl fixed show dumps metrics g.0)
          ≡ true)
        (gates_of fl fixed show dumps suite)

  failed_gates-empty_iff :
      (gs : Dict String ℕ) (metrics : Dict String fl.F)
      → (is_empty (failed_gates fl fixed show dumps gs metrics) ≡ true)
        ↔ All
            (λ g.
              fl.leb_f (threshold fl fixed show dumps g.1) (metric fl fixed show dumps metrics g.0)
              ≡ true)
            gs
  unfolding failed_gates
  failed_gates-empty_iff [] metrics = ((λ h. tt), (λ h. refl))
  failed_gates-empty_iff ((key, minimum) ∷ gs) metrics =
      let ih = failed_gates-empty_iff gs metrics in
      elim (Bool-cases (
        fl.leb_f (threshold fl fixed show dumps minimum)
          (metric fl fixed show dumps metrics key))) [
            | inl e ↦ (
              (λ h. (e, ih.0 (sym (rw (e, failed_gates) refl) ∙ h))),
              (λ h. rw (e, failed_gates) (ih.1 h.1)),
            )
            | inr e ↦
                let some_failed : is_empty
                      (failed_gates fl fixed show dumps ((key, minimum) ∷ gs) metrics)
                    ≡ false =
                  rw (e, failed_gates) refl in
                (
                  (λ h. absurd (ground (arith, some_failed, h))),
                  (λ h. absurd (ground (arith, e, h.0))),
                )
          ]

  -- What the runner of a suite gave reaches the gates of the suite.
  abbrev pub IsPassed : Runners fl fixed show dumps → String → Type 0
  IsPassed runners suite =
      (r : RunResult fl) × (run_named fl fixed show dumps runners suite ≡ returned r)
      × IsReached suite r.metrics

  abbrev Reached : String → Outcome (RunResult fl) → Type 0
  Reached suite (raised e) = Unit
  Reached suite (returned r) = IsReached suite r.metrics

  -- Every suite of the list has a result.
  abbrev pub IsRun : Runners fl fixed show dumps → List String → Type 0
  IsRun runners suites =
      All (λ s. (r : RunResult fl) × (run_named fl fixed show dumps runners s ≡ returned r)) suites

  run_suites-IsPassed :
      (runners : Runners fl fixed show dumps) (suites : List String)
      → IsRun runners suites
      → (rs : List (SuiteRecord fl fixed show dumps)) × (run_suites fl fixed show dumps runners
            suites
          ≡ returned rs)
        × ((every (λ r. r.gate_passed) rs ≡ true) ↔ All (λ s. IsPassed runners s) suites)
  unfolding run_suites
  run_suites-IsPassed runners [] run = ([], refl, ((λ h. tt), (λ h. refl)))
  run_suites-IsPassed runners (s ∷ ss) ((r, e), run) =
      let (rs, f, back) = run_suites-IsPassed runners ss run in
      let passed = record_of fl fixed show dumps s r in
      let gate = failed_gates-empty_iff (gates_of fl fixed show dumps s) r.metrics in
      let ok =
        is_empty (failed_gates fl fixed show dumps (gates_of fl fixed show dumps s) r.metrics) in
      (
        passed ∷ rs,
        rw (e, f, run_suites) refl,
        (
          (λ h.
              let both : (ok ≡ true) × (every (λ x. x.gate_passed) rs ≡ true) = ground (arith, h) in
              ((r, e, gate.0 both.0), back.0 both.1)),
          (λ h.
              let good : ok ≡ true = gate.1 (subst (Reached s) (sym h.0.1 ∙ e) h.0.2) in
              let rest : every (λ x. x.gate_passed) rs ≡ true = back.1 h.1 in
              ground (arith, good, rest)),
        ),
      )

  -- If the runner of every chosen suite ends, the command ends, and its exit code is 0 exactly when the
  -- metrics of each chosen suite reach all gates of that suite.
  pub main-exit_iff :
      (runners : Runners fl fixed show dumps) (git : Option (ℕ × String)) (timestamp suite : String)
      → IsRun runners (suites_of fl fixed show dumps suite)
      → (code : ℕ) × (report : String) × (main fl fixed show dumps runners git timestamp suite
          ≡ returned (code, report))
        × ((code ≡ 0) ↔ All (λ s. IsPassed runners s) (suites_of fl fixed show dumps suite))
  unfolding main
  main-exit_iff runners git timestamp suite run =
      let (rs, e, passed) = run_suites-IsPassed runners (suites_of fl fixed show dumps suite) run in
      elim (Bool-cases (every (λ r. r.gate_passed) rs)) [
        | inl all ↦ (
          0,
          render_report fl fixed show dumps rs (git_sha git) timestamp true,
          rw (e, all, main) refl,
          ((λ h. passed.0 all), (λ h. refl)),
        )
        | inr one ↦ (
          1,
          render_report fl fixed show dumps rs (git_sha git) timestamp false,
          rw (e, one, main) refl,
          ((λ h. absurd (omega (arith, h))), (λ h. absurd (ground (arith, one, passed.1 h)))),
        )
      ]
