-- ===== src/Eval/Scripted.antt =====
-- The chat suite drives every turn to its end, as its script says.
use mathlib.Core.Path.{subst}
use food_order_system.Base.{
  ℕ, zero, suc, ◌≡◌, refl, ap, sym, ◌∙◌, String, string_eq, Bool, true, false, not, Option, none,
  some, List, [], ◌∷◌, ◌++◌, map, In, arith, ==_refl, any, every, drop, is_blank, has_part, join,
  inl, inr,
}
use food_order_system.Base.Parts.{has_part-join}
use food_order_system.Base.Float.{Float}
use food_order_system.Base.Json.{obj, end, truthy, Json}
use food_order_system.Base.Outcome.{Outcome, returned}
use food_order_system.Schemas.{ToolCallRecord, ChatSession}
use food_order_system.Llm.{MessagesResult, text_of, texts, tool_uses}
use food_order_system.Chat.Tools.{all_tools}
use food_order_system.Chat.{
  Texts, Request, request, Ending, replied, TurnResult, loop, run, after_reply, after_tools,
  exec_all, exec_single, final, is_dict, input_of,
}
use food_order_system.Eval.{indicator}
use food_order_system.Eval.ChatSuite.{
  reply_of, Step, tool_step, text_step, Script, step_at, next, Turn, final_text, steps_for_turn,
  plan_ok, contains_ok, distinct, messages, execute, engine_run, Tally, note_result,
}

-- The script after a step.
abbrev advance : Script → Script
advance s = record s { idx = suc s.idx }

drop-step :
    (steps : List Step) (i : ℕ) (step : Step) (rest : List Step)
    → drop i steps ≡ step ∷ rest
    → (step_at steps i ≡ some step) × (drop (suc i) steps ≡ rest)
unfolding drop step_at
drop-step [] zero step rest h = absurd (ground (arith, h))
drop-step [] (suc i) step rest h = absurd (ground (arith, h))
drop-step (s ∷ ss) zero step rest h = ground (arith, h)
drop-step (s ∷ ss) (suc i) step rest h = drop-step ss i step rest h

-- The script still has these steps.
abbrev pub IsAt : Script → List Step → Type 0
IsAt s rest = drop s.idx s.steps ≡ rest

next-step :
    (s : Script) (step : Step) (rest : List Step)
    → IsAt s (step ∷ rest)
    → (next s ≡ (step, advance s)) × IsAt (advance s) rest
unfolding next
next-step s step rest h =
    let (e, after) = drop-step s.steps s.idx step rest h in (rw (e, next) refl, after)

pub contains_ok_final_lem :
    (contains : List String) (p : String) → In p contains → has_part p (final_text contains) ≡ true
unfolding final_text
contains_ok_final_lem [] p m = absurd m
contains_ok_final_lem (c ∷ cs) p m = has_part-join " " (c ∷ cs) p m

contains_all :
    (parts : List String) (reply : String)
    → ((p : String) → In p parts → has_part p reply ≡ true)
    → every (λ sub. has_part sub reply) parts ≡ true
contains_all [] reply h = refl
contains_all (p ∷ ps) reply h = rw (h p (inl refl)) (contains_all ps reply (λ q m. h q (inr m)))

contains_ok_final : (contains : List String) → contains_ok contains (final_text contains) ≡ true
unfolding contains_ok final_text
contains_ok_final [] = refl
contains_ok_final (p ∷ ps) =
    contains_all (p ∷ ps) (join " " (p ∷ ps)) (λ q m. has_part-join " " (p ∷ ps) q m)

-- The name of the tool is missing, or not empty.
abbrev pub has_name : Turn → Bool
has_name t = elim t.expected_tool [ none ↦ true | some name ↦ not (is_blank name) ]

abbrev pub calls_of : Option String → List String
calls_of none = []
calls_of (some name) = name ∷ []

abbrev turn_of : String → Option String → List String → Turn
turn_of said tool contains = record {
  user = said;
  expected_tool = tool;
  expected_text_contains = contains;
}

plan_ok_calls : (tool : Option String) → plan_ok tool (distinct (calls_of tool)) ≡ true
unfolding plan_ok distinct any
plan_ok_calls none = refl
plan_ok_calls (some name) = rw (==_refl name) refl

module _ (fl : Float) (show : ℕ → String) (cut : String → String) (clock : Script → ℕ) (py : Texts)
    (system : String) (session_id : String) where
  abbrev pub engine : String → ChatSession → Script → Ending × ChatSession × Script
  engine = engine_run fl show cut clock py system session_id

  -- A turn ends with a reply of this text and calls of these tools, and the script has these steps left.
  abbrev IsReplied : String → List String → List Step → Ending × ChatSession × Script → Type 0
  IsReplied reply called rest o =
      (r : TurnResult) × (o.0 ≡ replied r)
      × IsAt o.2 rest
      × (r.reply ≡ reply)
      × (map (λ c. c.tool) r.tool_calls ≡ called)

  abbrev llm : Script → Request → Outcome MessagesResult × Script
  llm = messages fl show cut clock py system session_id

  abbrev tools_loop :
      ℕ → ℕ → List ToolCallRecord → String → ChatSession → Script → Ending × ChatSession × Script
  tools_loop = loop llm (execute fl show cut clock py system session_id) clock py system all_tools

  abbrev answer : Script → Step → MessagesResult
  answer = reply_of fl show cut clock py system session_id

  llm-step :
      (s : Script) (step : Step) (q : Request)
      → next s ≡ (step, advance s)
      → llm s q ≡ (returned (answer (advance s) step), advance s)
  unfolding messages
  llm-step s step q e = ap (λ p. (returned (answer p.1 p.0), p.1)) e

  -- An iteration of the loop, with what the model answers.
  loop-body :
      (P : Ending × ChatSession × Script → Type 0) (left n : ℕ) (records : List ToolCallRecord)
      (last : String) (session : ChatSession) (s : Script) (step : Step)
      → next s ≡ (step, advance s)
      → P (
          after_reply llm
            (execute fl show cut clock py system session_id)
            clock
            py
            system
            all_tools
            (tools_loop left (suc n))
            n
            records
            (returned (answer (advance s) step))
            session
            (advance s))
      → P (tools_loop (suc left) n records last session s)
  unfolding loop
  loop-body P left n records last session s step e p =
      subst
        (λ a. P (
          after_reply llm (execute fl show cut clock py system session_id) clock py system all_tools
            (tools_loop left (suc n)) n records a.0 session a.1))
        (sym (
          llm-step s step
            (request llm (execute fl show cut clock py system session_id) clock py system all_tools
              session)
            e))
        p

  text_turn :
      (left n : ℕ) (records : List ToolCallRecord) (last t : String) (session : ChatSession)
      (s : Script) (rest : List Step)
      → IsAt s (text_step t ∷ rest)
      → IsReplied t
          (map (λ c. c.tool) records)
          rest
          (tools_loop (suc left) n records last session s)
  unfolding after_reply after_tools tool_uses text_of texts final join reply_of
  text_turn left n records last t session s rest h =
      let (e, after) = next-step s (text_step t) rest h in
      loop-body (IsReplied t (map (λ c. c.tool) records) rest) left n records last session s
        (text_step t) e (_, refl, after, refl, refl)

  tool_turn :
      (left n : ℕ) (last name t : String) (session : ChatSession) (s : Script) (rest : List Step)
      → IsAt s (tool_step name (obj end) ∷ text_step t ∷ rest)
      → IsReplied t (name ∷ []) rest (tools_loop (suc (suc left)) n [] last session s)
  unfolding after_reply after_tools tool_uses exec_all exec_single execute reply_of is_dict input_of
      truthy
  tool_turn left n last name t session s rest h =
      let (e, after) = next-step s (tool_step name (obj end)) (text_step t ∷ rest) h in
      loop-body (IsReplied t (name ∷ []) rest) (suc left) n [] last session s
        (tool_step name (obj end)) e
        (text_turn left (suc n) _ "tool_use" t _ (advance s) rest after)

  pub turn-IsReplied :
      (said : String) (tool : Option String) (contains : List String) (session : ChatSession)
      (s : Script) (rest : List Step)
      → has_name (turn_of said tool contains) ≡ true
      → IsAt s (steps_for_turn (turn_of said tool contains) ++ rest)
      → IsReplied (final_text contains) (calls_of tool) rest (engine said session s)
  unfolding engine_run run steps_for_turn
  turn-IsReplied said none contains session s rest named h =
      text_turn 4 0 [] "" (final_text contains) _ s rest h
  turn-IsReplied said (some name) contains session s rest named h =
      let full : is_blank name ≡ false = ground (arith, named) in
      tool_turn 3 0 "" name (final_text contains) _ s rest (rw full at h)

  abbrev one : fl.F
  one = indicator fl true

  -- The tally with one turn more that went well.
  abbrev pub with_hit :
      Tally fl show cut clock py system session_id → Tally fl show cut clock py system session_id
  with_hit tally = record {
    plan_hits = tally.plan_hits ++ one ∷ [];
    text_hits = tally.text_hits ++ one ∷ [];
    failures = tally.failures;
  }

  pub note_result-hit :
      (id : Json) (i : ℕ) (said : String) (tool : Option String) (contains : List String)
      (r : TurnResult) (tally : Tally fl show cut clock py system session_id)
      → r.reply ≡ final_text contains
      → map (λ c. c.tool) r.tool_calls ≡ calls_of tool
      → note_result fl show cut clock py system session_id id i (turn_of said tool contains) r tally
        ≡ with_hit tally
  unfolding note_result
  note_result-hit id i said tool contains r tally same called =
      let plan : plan_ok tool (distinct (map (λ c. c.tool) r.tool_calls)) ≡ true =
        ap (λ l. plan_ok tool (distinct l)) called ∙ plan_ok_calls tool in
      let text_found : contains_ok contains r.reply ≡ true =
        ap (contains_ok contains) same ∙ contains_ok_final contains in
      rw (plan, text_found, note_result) refl
