-- ===== src/Chat.antt =====
-- ai_service/src/fos_ai/services/chat_engine.py: one user turn of the chat agent. The language
-- model, the tools and the clock act on a world `W`, which is passed along.
pub mod Tools
pub mod Rounds
pub mod Calls
pub mod Protocol
mod Tests
use food_order_system.Base.{
  ℕ, zero, suc, ◌+◌, String, Bool, true, false, Option, none, some, List, [], ◌∷◌, ◌++◌, map,
  if◌then◌else◌, is_blank, ◌&&◌, join,
}
use food_order_system.Base.Json.{Json, obj, end, truthy}
use food_order_system.Base.Outcome.{Outcome, returned, raised}
use food_order_system.Schemas.{
  parts, part_text, Block, text, tool_result, Role, user, assistant, ChatMessage, ChatSession,
  append, ToolCallRecord,
}
use food_order_system.Llm.{MessagesResult, ToolUse, ToolDef, text_of, tool_uses}

abbrev pub max_iterations : ℕ
max_iterations = 5

-- The arguments of `LlmClient.messages`.
pub record Request : Type 0 where
  pub system : String
  pub history : List (Role × List Block)
  pub tools : List ToolDef
  pub max_tokens : ℕ

pub record TurnResult : Type 0 where
  pub reply : String
  pub tool_calls : List ToolCallRecord
  pub finish_reason : String
  pub iterations : ℕ

-- How a turn ends: with a reply, or by an exception with its text: `ChatMaxIterations` at the safety
-- cap, or any other.
pub data Ending : Type 0 where
  replied : TurnResult → Ending
  capped : (message : String) → Ending
  broken : (message : String) → Ending

-- Texts that Python makes: `json.dumps`, `str` of a number, `repr` of a string, and what pydantic says
-- of an input and an output that `ToolCallRecord` refuses.
pub record Texts : Type 0 where
  pub dumps : Json → String
  pub show : ℕ → String
  pub quote : String → String
  pub invalid : Json → Json → String

-- The types of the fields of `ToolCallRecord` that are not checked elsewhere: both are `dict`.
unfoldable pub is_dict : Json → Bool
is_dict (obj fields) = true
is_dict _ = false

-- `tu.get("input", {}) or {}`
unfoldable pub input_of : ToolUse → Json
input_of t = if truthy t.input then t.input else obj end

-- `_messages_for_llm`
unfoldable pub messages_for_llm : ChatSession → List (Role × List Block)
messages_for_llm s = map (λ m. (m.role, m.content)) s.messages

unfoldable pub is_some {ℓ} : {A : Type ℓ} → Option A → Bool
is_some none = false
is_some (some a) = true

module _ {W : Type 0} (llm : W → Request → Outcome MessagesResult × W)
    (execute : W → String → Json → Outcome Json × W) (now : W → ℕ) (py : Texts) (system : String)
    (tools : List ToolDef) where
  unfoldable pub exec_single : W → String → Json → Json × Option String × W
  exec_single w name input =
      let (r, w') = execute w name input in
      elim r [ returned output ↦ (output, none, w') | raised e ↦ (obj end, some e, w') ]

  -- `error if error is not None else json.dumps(output)`
  unfoldable pub payload_of : Json → Option String → String
  payload_of output none = py.dumps output
  payload_of output (some e) = e

  unfoldable pub result_block : String → Json → Option String → Block
  unfolding payload_of is_some
  result_block id output error =
      tool_result id (parts (part_text (payload_of output error) ∷ [])) (is_some error)

  -- The loop over `result.tool_uses`: the result blocks and the records, or the exception that refuses
  -- a record after its tool has run; and the world.
  unfoldable pub exec_all : List ToolUse → W → Outcome (List Block × List ToolCallRecord) × W
  unfolding exec_single result_block is_dict input_of
  exec_all [] w = (returned ([], []), w)
  exec_all (t ∷ ts) w =
      let input = input_of t in
      let (output, error, w1) = exec_single w t.name input in
      elim (is_dict input && is_dict output) [
        | false ↦ (raised (py.invalid input output), w1)
        | true ↦
            let (rest, w2) = exec_all ts w1 in
            elim rest [
              | raised e ↦ (raised e, w2)
              | returned (blocks, records) ↦ (
                returned (
                  result_block t.id output error ∷ blocks,
                  record { tool = t.name; tool_input = input; output = output; error = error }
                      ∷ records,
                ),
                w2,
              )
            ]
      ]

  abbrev pub message : Role → List Block → W → ChatMessage
  message r c w = record { role = r; content = c; sent_at = now w }

  abbrev pub say : Role → List Block → W → ChatSession → ChatSession
  say r c w s = append (now w) (message r c w) s

  abbrev pub request : ChatSession → Request
  request s = record {
    system = system;
    history = messages_for_llm s;
    tools = tools;
    max_tokens = 1024;
  }

  -- `result.stop_reason or "end_turn"`
  unfoldable pub final : MessagesResult → List ToolCallRecord → ℕ → TurnResult
  final r records n = record {
    reply = text_of r.content;
    tool_calls = records;
    finish_reason = if is_blank r.stop_reason then "end_turn" else r.stop_reason;
    iterations = n;
  }

  abbrev pub Continuation : Type 0
  Continuation = List ToolCallRecord → String → ChatSession → W → Ending × ChatSession × W

  -- No tool call ends the turn; the answers to tool calls are said as one user message.
  unfoldable pub after_tools :
      Continuation
      → ℕ
      → List ToolCallRecord
      → MessagesResult
      → List ToolUse
      → ChatSession
      → W
      → Ending × ChatSession × W
  unfolding final
  after_tools continue n records r [] s w = (replied (final r records (suc n)), s, w)
  after_tools continue n records r (t ∷ ts) s w =
      let (answers, w') = exec_all (t ∷ ts) w in
      elim answers [
        | raised e ↦ (broken e, s, w')
        | returned (blocks, new) ↦ continue (records ++ new) r.stop_reason (say user blocks w' s) w'
      ]

  unfoldable pub after_reply :
      Continuation
      → ℕ
      → List ToolCallRecord
      → Outcome MessagesResult
      → ChatSession
      → W
      → Ending × ChatSession × W
  unfolding after_tools
  after_reply continue n records (raised e) s w = (broken e, s, w)
  after_reply continue n records (returned r) s w =
      after_tools continue n records r (tool_uses r.content) (say assistant r.content w s) w

  -- The text of `ChatMaxIterations`.
  unfoldable pub cap_text : ℕ → String → String
  cap_text n last = join "" (
      "tool loop exceeded "
      ∷ py.show n
      ∷ " iterations (last stop_reason="
      ∷ py.quote last
      ∷ ")"
      ∷ [])

  -- The loop over the iterations: `left` are to come and `n` are done, which at the cap is all of them.
  unfoldable pub loop :
      ℕ → ℕ → List ToolCallRecord → String → ChatSession → W → Ending × ChatSession × W
  unfolding after_reply cap_text
  loop zero n records last s w = (capped (cap_text n last), s, w)
  loop (suc left) n records last s w =
      let (answer, w') = llm w (request s) in after_reply (loop left (suc n)) n records answer s w'

  unfoldable pub run : ℕ → String → ChatSession → W → Ending × ChatSession × W
  run max_iters user_text s w = loop max_iters 0 [] "" (say user (text user_text ∷ []) w s) w
