-- ===== src/Eval/Passing.antt =====
-- The chat suite as a whole: every turn of every case ends, with the tool and the text of its script.
use food_order_system.Base.{
  string_eq, Option, ℕ, zero, suc, ◌+◌, ◌≡◌, refl, ap, sym, ◌∙◌, String, Bool, true, List, [], ◌∷◌,
  ◌++◌, arith, every, drop, repeat, length, Option, has_part, All, In, map,
}
use mathlib.Core.Path.{ap₂}
use mathlib.Core.List.{append_assoc, append-nil}
use food_order_system.Base.Float.{Float}
use food_order_system.Base.Json.{Json}
use food_order_system.Chat.{Texts, TurnResult, replied}
use food_order_system.Schemas.{ChatSession, new_session}
use food_order_system.Eval.{indicator, mean}
use food_order_system.Eval.ChatSuite.{
  Script, Turn, Case, all_steps, Tally, note_turn, run_turns, run_cases, run_chat, distinct,
  plan_ok,
}
use food_order_system.Eval.Scripted.{
  has_name, with_hit, IsAt, engine, turn-IsReplied, note_result-hit, contains_ok_final_lem,
  calls_of,
}
use food_order_system.Eval.Plans.{IsPlanned, plan_ok-IsPlanned}

abbrev turns_in : List Case → ℕ
turns_in [] = 0
turns_in (c ∷ cs) = length c.turns + turns_in cs

abbrev pub is_named : Case → Bool
is_named c = every has_name c.turns

module _ (fl : Float) (show : ℕ → String) (cut : String → String) (clock : Script → ℕ) (py : Texts)
    (system : String) (session_id : String) where
  abbrev Counts : Type 0
  Counts = Tally fl show cut clock py system session_id

  abbrev hit : Counts → Counts
  hit = with_hit fl show cut clock py system session_id

  abbrev hits : ℕ → Counts → Counts
  hits zero tally = tally
  hits (suc n) tally = hits n (hit tally)

  hits_add : (m n : ℕ) (tally : Counts) → hits n (hits m tally) ≡ hits (m + n) tally
  hits_add zero n tally = let e : n ≡ zero + n = omega arith in ap (λ k. hits k tally) e
  hits_add (suc m) n tally =
      let e : suc (m + n) ≡ suc m + n = omega arith in
      hits_add m n (hit tally) ∙ ap (λ k. hits k tally) e

  run_turns-hits :
      (id : Json) (i : ℕ) (ts : List Turn) (session : ChatSession) (s : Script) (tally : Counts)
      → every has_name ts ≡ true
      → IsAt s (all_steps ts)
      → run_turns fl show cut clock py system session_id id i ts session s tally
        ≡ hits (length ts) tally
  unfolding run_turns all_steps
  run_turns-hits id i [] session s tally named h = refl
  run_turns-hits id i (t ∷ ts) session s tally named h =
      let here : has_name t ≡ true = ground (arith, named) in
      let rest : every has_name ts ≡ true = ground (arith, named) in
      let (r, e, after, same, called) =
        turn-IsReplied fl show cut clock py system session_id t.user t.expected_tool
          t.expected_text_contains session s (all_steps ts) here h in
      let o = engine fl show cut clock py system session_id t.user session s in
      let noted : note_turn fl show cut clock py system session_id id i t o.0 tally ≡ hit tally =
        ap (λ x. note_turn fl show cut clock py system session_id id i t x tally) e
        ∙ note_result-hit fl show cut clock py system session_id id i t.user t.expected_tool
            t.expected_text_contains r tally same called in
      ap (run_turns fl show cut clock py system session_id id (suc i) ts o.1 o.2) noted
      ∙ run_turns-hits id (suc i) ts o.1 o.2 (hit tally) rest after

  run_cases-hits :
      (cs : List Case) (tally : Counts)
      → every is_named cs ≡ true
      → run_cases fl show cut clock py system session_id cs tally ≡ hits (turns_in cs) tally
  unfolding run_cases drop
  run_cases-hits [] tally named = refl
  run_cases-hits (c ∷ cs) tally named =
      let here : is_named c ≡ true = ground (arith, named) in
      let rest : every is_named cs ≡ true = ground (arith, named) in
      ap (run_cases fl show cut clock py system session_id cs) (
        run_turns-hits c.id 0 c.turns _ (record { steps = all_steps c.turns; idx = 0 }) tally here
          refl)
      ∙ run_cases-hits cs (hits (length c.turns) tally) rest
      ∙ hits_add (length c.turns) (turns_in cs) tally

  abbrev one : fl.F
  one = indicator fl true

  hits_fields :
      (n : ℕ) (tally : Counts)
      → ((hits n tally).plan_hits ≡ tally.plan_hits ++ repeat n one)
        × ((hits n tally).text_hits ≡ tally.text_hits ++ repeat n one)
        × ((hits n tally).failures ≡ tally.failures)
  hits_fields zero tally =
      (sym (append-nil tally.plan_hits), sym (append-nil tally.text_hits), refl)
  hits_fields (suc n) tally =
      let (a, b, c) = hits_fields n (hit tally) in
      (
        a ∙ append_assoc tally.plan_hits (one ∷ []) (repeat n one),
        b ∙ append_assoc tally.text_hits (one ∷ []) (repeat n one),
        c,
      )

  -- Each turn, in order: the engine answers it with a reply, calls the tool that the turn expects and no
  -- other, and every expected text is in the reply.
  abbrev pub Follows : List Turn → ChatSession → Script → Type 0
  Follows [] session s = Unit
  Follows (t ∷ ts) session s =
      let o = engine fl show cut clock py system session_id t.user session s in
      ((r : TurnResult) × (o.0 ≡ replied r)
        × (map (λ c. c.tool) r.tool_calls ≡ calls_of t.expected_tool)
        × ((p : String) → In p t.expected_text_contains → has_part p r.reply ≡ true))
      × Follows ts o.1 o.2

  turns-Follow :
      (ts : List Turn) (session : ChatSession) (s : Script)
      → every has_name ts ≡ true
      → IsAt s (all_steps ts)
      → Follows ts session s
  unfolding all_steps
  turns-Follow [] session s named h = tt
  turns-Follow (t ∷ ts) session s named h =
      let here : has_name t ≡ true = ground (arith, named) in
      let rest : every has_name ts ≡ true = ground (arith, named) in
      let (r, e, after, same, called) =
        turn-IsReplied fl show cut clock py system session_id t.user t.expected_tool
          t.expected_text_contains session s (all_steps ts) here h in
      let o = engine fl show cut clock py system session_id t.user session s in
      (
        (
          r,
          e,
          called,
          (λ p m. ap (has_part p) same ∙ contains_ok_final_lem t.expected_text_contains p m),
        ),
        turns-Follow ts o.1 o.2 rest after,
      )

  -- A case starts with a session of its own and the script of all its turns.
  abbrev pub IsFollowed : Case → Type 0
  IsFollowed c =
      let s : Script = record { steps = all_steps c.turns; idx = 0 } in
      Follows c.turns (new_session (clock s) session_id 1) s

  cases-Followed : (cs : List Case) → every is_named cs ≡ true → All IsFollowed cs
  unfolding drop
  cases-Followed [] named = tt
  cases-Followed (c ∷ cs) named =
      let here : is_named c ≡ true = ground (arith, named) in
      let rest : every is_named cs ≡ true = ground (arith, named) in
      (turns-Follow c.turns _ _ here refl, cases-Followed cs rest)

  -- With any cases in which no name of a tool is empty, every turn of every case ends with a reply: the
  -- chat engine calls the tool that the turn expects and no other, and the reply contains every expected
  -- text. No failure is recorded, and both rates are means of ones, one for each turn. The plan of a
  -- turn only counts as followed if the expected tool was called, or if none was expected and none
  -- called.
  pub run_chat-passes :
      (cases : List Case)
      → every is_named cases ≡ true
      → let result = run_chat fl show cut clock py system session_id cases in
        All IsFollowed cases
        × (result.failures ≡ [])
        × (result.metrics
            ≡ ("tool_plan_match", mean fl (repeat (turns_in cases) one))
              ∷ ("text_contains_rate", mean fl (repeat (turns_in cases) one))
              ∷ [])
        × ((tool : Option String) (called : List String)
            → plan_ok tool (distinct called) ≡ true
            → IsPlanned tool called)
  unfolding run_chat
  run_chat-passes cases named =
      let start : Counts = record { plan_hits = []; text_hits = []; failures = [] } in
      let e = run_cases-hits cases start named in
      let (a, b, c) = hits_fields (turns_in cases) start in
      let rates = λ (p q : List fl.F).
        ("tool_plan_match", mean fl p) ∷ ("text_contains_rate", mean fl q) ∷ [] in
      (
        cases-Followed cases named,
        ap (λ t. t.failures) e ∙ c,
        ap (λ t. rates t.plan_hits t.text_hits) e ∙ ap₂ rates a b,
        plan_ok-IsPlanned,
      )
