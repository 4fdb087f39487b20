-- ===== src/Eval/ChatSuite.antt =====
-- ai_service/eval/runners/chat_runner.py: the chat suite, in which a script stands for the language
-- model and drives the chat engine.
use food_order_system.Base.{
  ℕ, zero, suc, String, string_eq, Bool, true, ◌&&◌, Option, none, some, List, [], ◌∷◌, ◌++◌, map,
  if◌then◌else◌, ◌==◌, any, every, is_empty, is_blank, has_part, join, length,
}
use food_order_system.Base.Float.{Float}
use food_order_system.Base.Int.{pos}
use food_order_system.Base.Json.{Json, boolean, int, str, null, arr, obj, Fields, end, field}
use food_order_system.Base.Outcome.{Outcome, returned}
use food_order_system.Schemas.{text, tool_use, ChatSession, new_session}
use food_order_system.Llm.{MessagesResult}
use food_order_system.Chat.{
  Texts, Request, TurnResult, Ending, replied, capped, broken, max_iterations, run,
}
use food_order_system.Chat.Tools.{all_tools, items_of}
use food_order_system.Eval.{RunResult, indicator, mean}

-- `_ScriptedStep`
pub data Step : Type 0 where
  tool_step : (tool_name : String) → (tool_input : Json) → Step
  text_step : String → Step

-- `_ScriptedLlm`
pub record Script : Type 0 where
  pub steps : List Step
  pub idx : ℕ

unfoldable pub step_at : List Step → ℕ → Option Step
step_at [] i = none
step_at (s ∷ ss) zero = some s
step_at (s ∷ ss) (suc i) = step_at ss i

-- `_next`: after the end of the script comes an empty text.
unfoldable pub next : Script → Step × Script
unfolding step_at
next s = elim (step_at s.steps s.idx) [
  | none ↦ (text_step "", s)
  | some step ↦ (step, record s { idx = suc s.idx })
]

pub record Turn : Type 0 where
  pub user : String
  pub expected_tool : Option String
  pub expected_text_contains : List String

pub record Case : Type 0 where
  pub id : Json
  pub turns : List Turn

unfoldable pub final_text : List String → String
final_text contains = join " " (if is_empty contains then "ok" ∷ [] else contains)

-- `_steps_for_turn`; an empty name of a tool counts as none.
unfoldable pub steps_for_turn : Turn → List Step
unfolding final_text
steps_for_turn t =
    let last = text_step (final_text t.expected_text_contains) ∷ [] in
    elim t.expected_tool [
      | none ↦ last
      | some name ↦ if is_blank name then last else tool_step name (obj end) ∷ last
    ]

unfoldable pub all_steps : List Turn → List Step
unfolding steps_for_turn
all_steps [] = []
all_steps (t ∷ ts) = steps_for_turn t ++ all_steps ts

-- `plan_ok`, on the names of the tools that were called.
unfoldable pub plan_ok : Option String → List String → Bool
plan_ok none invoked = is_empty invoked
plan_ok (some name) invoked = any (λ t. t == name) invoked

unfoldable pub contains_ok : List String → String → Bool
contains_ok contains reply = every (λ sub. has_part sub reply) contains

-- `set`: each name once.
unfoldable pub distinct : List String → List String
distinct [] = []
distinct (n ∷ ns) = let rest = distinct ns in if any (λ m. m == n) rest then rest else n ∷ rest

unfoldable pub json_of_name : Option String → Json
json_of_name none = null
json_of_name (some name) = str name

-- `show` is the text of a number, `cut` is `reply[:160]`; `clock` is the time and `system` the prompt of the engine.
module _ (fl : Float) (show : ℕ → String) (cut : String → String) (clock : Script → ℕ) (py : Texts)
    (system : String) (session_id : String) where
  -- The answer to a step; `after` is the script after it.
  unfoldable pub reply_of : Script → Step → MessagesResult
  reply_of after (text_step t) = record { content = text t ∷ []; stop_reason = "end_turn" }
  reply_of after (tool_step name input) = record {
    content = tool_use (join "" ("toolu_" ∷ show after.idx ∷ [])) name input ∷ [];
    stop_reason = "tool_use";
  }

  -- `_ScriptedLlm.messages`
  unfoldable pub messages : Script → Request → Outcome MessagesResult × Script
  unfolding next reply_of
  messages s request = let (step, after) = next s in (returned (reply_of after step), after)

  -- `_StubExecutor.execute`
  unfoldable pub execute : Script → String → Json → Outcome Json × Script
  execute s name input =
      (returned (obj (field "tool" (str name) (field "ok" (boolean true) end))), s)

  -- `engine.run(session, turn["user"])`
  unfoldable pub engine_run : String → ChatSession → Script → Ending × ChatSession × Script
  unfolding run messages execute
  engine_run said session s =
      run messages execute clock py system all_tools max_iterations said session s

  pub record Tally : Type 0 where
    pub plan_hits : List fl.F
    pub text_hits : List fl.F
    pub failures : List Fields

  unfoldable pub note_error : Json → ℕ → String → Tally → Tally
  note_error id turn_idx e tally = record {
    plan_hits = tally.plan_hits ++ fl.zero_f ∷ [];
    text_hits = tally.text_hits ++ fl.zero_f ∷ [];
    failures =
        tally.failures
        ++ field "id" id (field "turn" (int (pos turn_idx)) (field "error" (str e) end)) ∷ [];
  }

  unfoldable pub note_result : Json → ℕ → Turn → TurnResult → Tally → Tally
  unfolding plan_ok contains_ok distinct json_of_name indicator
  note_result id turn_idx t r tally =
      let invoked = distinct (map (λ c. c.tool) r.tool_calls) in
      let plan = plan_ok t.expected_tool invoked in
      let contained = contains_ok t.expected_text_contains r.reply in
      record {
        plan_hits = tally.plan_hits ++ indicator fl plan ∷ [];
        text_hits = tally.text_hits ++ indicator fl contained ∷ [];
        failures =
            if plan && contained
            then tally.failures
            else tally.failures
              ++ field "id" id (
                  field "turn" (int (pos turn_idx)) (
                    field "plan_ok" (boolean plan) (
                      field "contains_ok" (boolean contained) (
                        field "invoked" (arr (items_of (map (λ n. str n) invoked))) (
                          field "expected_tool" (json_of_name t.expected_tool)
                            (field "reply" (str (cut r.reply)) end))))))
                ∷ [];
      }

  unfoldable pub note_turn : Json → ℕ → Turn → Ending → Tally → Tally
  unfolding note_error note_result
  note_turn id turn_idx t (replied r) tally = note_result id turn_idx t r tally
  note_turn id turn_idx t (capped message) tally = note_error id turn_idx message tally
  note_turn id turn_idx t (broken e) tally = note_error id turn_idx e tally

  -- The loop over the turns of a case.
  unfoldable pub run_turns : Json → ℕ → List Turn → ChatSession → Script → Tally → Tally
  unfolding engine_run note_turn
  run_turns id turn_idx [] session s tally = tally
  run_turns id turn_idx (t ∷ ts) session s tally =
      let (ending, session', s') = engine_run t.user session s in
      run_turns id (suc turn_idx) ts session' s' (note_turn id turn_idx t ending tally)

  unfoldable pub run_cases : List Case → Tally → Tally
  unfolding run_turns all_steps new_session
  run_cases [] tally = tally
  run_cases (c ∷ cs) tally =
      let s : Script = record { steps = all_steps c.turns; idx = 0 } in
      run_cases cs (run_turns c.id 0 c.turns (new_session (clock s) session_id 1) s tally)

  unfoldable pub run_chat : List Case → RunResult fl
  unfolding run_cases mean
  run_chat cases =
      let tally = run_cases cases (record { plan_hits = []; text_hits = []; failures = [] }) in
      record {
        suite = "chat";
        n_cases = length cases;
        metrics =
            ("tool_plan_match", mean fl tally.plan_hits)
            ∷ ("text_contains_rate", mean fl tally.text_hits)
            ∷ [];
        failures = tally.failures;
      }
