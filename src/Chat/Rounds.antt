-- ===== src/Chat/Rounds.antt =====
-- The shape of the transcript that a turn leaves: what a round of tool calls and answers is.
use food_order_system.Base.{
  ℕ, suc, ◌≡◌, ◌≢◌, String, Option, none, some, List, [], ◌∷◌, ◌++◌, In, ◌⊎◌, false,
}
use food_order_system.Base.Json.{Json}
use food_order_system.Base.Outcome.{Outcome, returned}
use food_order_system.Schemas.{
  parts, part_text, Block, tool_result, user, assistant, ChatMessage, ToolCallRecord,
}
use food_order_system.Llm.{ToolUse, text_of, tool_uses}
use food_order_system.Chat.{TurnResult, Ending, replied, capped, broken, is_some, is_dict, input_of}

abbrev pub shown : (Json → String) → Json → Option String → String
shown dumps output none = dumps output
shown dumps output (some e) = e

-- Each tool call, in order, has one result block with its identifier and one record with its name;
-- the block says that it is an error exactly when the record has one, and then carries it.
pub data Answers (dumps : Json → String)
    : List ToolUse → List Block → List ToolCallRecord → Type 0 where
  no_more : Answers dumps [] [] []
  answer :
      {ts : List ToolUse} {bs : List Block} {rs : List ToolCallRecord}
      → (t : ToolUse) (payload : String) (r : ToolCallRecord) → r.tool ≡ t.name
      → payload ≡ shown dumps r.output r.error
      → Answers dumps ts bs rs
      → Answers dumps
          (t ∷ ts)
          (tool_result t.id (parts (part_text payload ∷ [])) (is_some r.error) ∷ bs)
          (r ∷ rs)

module _ {W : Type 0} (execute : W → String → Json → Outcome Json × W) where
  -- A call whose record is refused: its input is no dict, or what its tool returned is none.
  abbrev pub Unfit : ToolUse → Type 0
  Unfit t =
      (is_dict (input_of t) ≡ false)
      ⊎ ((w : W) × (output : Json) × ((execute w t.name (input_of t)).0 ≡ returned output)
          × (is_dict output ≡ false))

-- `Rounds ending records n ms`: after `n` replies and `records` of calls, the messages `ms` are
-- appended and the turn ends so. Every reply that calls tools is followed at once by one user
-- message with the answers, unless the record of one of its calls is refused, which ends the turn; a
-- reply that calls none is the last message.
pub data Rounds {W : Type 0} (execute : W → String → Json → Outcome Json × W)
    (dumps : Json → String) (ending : Ending)
    : List ToolCallRecord → ℕ → List ChatMessage → Type 0 where
  at_cap :
      {rs : List ToolCallRecord} {n : ℕ} (last : String)
      → ending ≡ capped last
      → Rounds execute dumps ending rs n []
  at_error :
      {rs : List ToolCallRecord} {n : ℕ} (e : String)
      → ending ≡ broken e
      → Rounds execute dumps ending rs n []
  at_reply :
      {rs : List ToolCallRecord} {n : ℕ}
      → (m : ChatMessage) (t : TurnResult) → ending ≡ replied t
      → m.role ≡ assistant
      → tool_uses m.content ≡ []
      → t.reply ≡ text_of m.content
      → t.tool_calls ≡ rs
      → t.iterations ≡ suc n
      → Rounds execute dumps ending rs n (m ∷ [])
  at_refusal :
      {rs : List ToolCallRecord} {n : ℕ}
      → (m : ChatMessage) (t : ToolUse) (e : String) → m.role ≡ assistant
      → In t (tool_uses m.content)
      → Unfit execute t
      → ending ≡ broken e
      → Rounds execute dumps ending rs n (m ∷ [])
  round :
      {rs new : List ToolCallRecord} {n : ℕ} {ms : List ChatMessage}
      → (m u : ChatMessage) → m.role ≡ assistant
      → u.role ≡ user
      → tool_uses m.content ≢ []
      → Answers dumps (tool_uses m.content) u.content new
      → Rounds execute dumps ending (rs ++ new) (suc n) ms
      → Rounds execute dumps ending rs n (m ∷ u ∷ ms)
