-- ===== src/Llm/OpenAi.antt =====
-- ai_service/src/fos_ai/services/llm_client.py: `OpenAILlmClient` and the conversion of histories,
-- tools and replies between the two providers' formats. `dumps` is `json.dumps`, and `loads` is
-- `json.loads` with `none` for what it cannot decode.
use food_order_system.Base.{
  ℕ, String, nat_eq, string_eq, Option, none, some, List, [], ◌∷◌, ◌++◌, map, if◌then◌else◌, ◌==◌,
  is_empty, is_blank, join,
}
use food_order_system.Base.Dict
use food_order_system.Base.Dict.{Dict}
use food_order_system.Base.Json.{Json, obj, end}
use food_order_system.Base.Sort.{sort}
use food_order_system.Schemas.{
  Part, part_text, part_other, ResultContent, no_content, whole_text, parts, Block, text, tool_use,
  tool_result, Role, user, assistant,
}
use food_order_system.Llm.{
  ToolReply, tool_call_result, text_only_result, MessagesResult, ToolDef, texts,
}
use food_order_system.Base.{leb}

-- The content of a message of the history: a text, or blocks.
pub data Content : Type 0 where
  plain : String → Content
  blocks : List Block → Content

pub record Call : Type 0 where
  pub call_id : String
  pub call_name : String
  pub arguments : String

pub data Message : Type 0 where
  system_message : String → Message
  text_message : Role → String → Message
  tool_message : (tool_call_id payload : String) → Message
  assistant_message : Option String → List Call → Message

-- A tool of the function-calling format.
pub record Function : Type 0 where
  pub function_name : String
  pub description : String
  pub parameters : Json

unfoldable pub tools_to_openai : List ToolDef → List Function
tools_to_openai tools =
    map
      (λ t. record {
        function_name = t.tool_name;
        description = t.description;
        parameters = t.input_schema;
      })
      tools

unfoldable pub part_texts : List Part → List String
part_texts [] = []
part_texts (part_text t ∷ ps) = t ∷ part_texts ps
part_texts (part_other ∷ ps) = part_texts ps

-- `result_text`
unfoldable pub result_text : ResultContent → String
unfolding part_texts
result_text no_content = ""
result_text (whole_text t) = t
result_text (parts ps) = join "\n" (part_texts ps)

-- One message for each `tool_result` block.
unfoldable pub results_of : List Block → List Message
unfolding result_text
results_of [] = []
results_of (text t ∷ bs) = results_of bs
results_of (tool_use i n v ∷ bs) = results_of bs
results_of (tool_result i payload e ∷ bs) = tool_message i (result_text payload) ∷ results_of bs

unfoldable pub user_messages : List Block → List Message
user_messages bs =
    results_of bs
    ++ (if is_empty (texts bs) then [] else text_message user (join "\n" (texts bs)) ∷ [])

module _ (dumps : Json → String) where
  unfoldable pub calls_of : List Block → List Call
  calls_of [] = []
  calls_of (text t ∷ bs) = calls_of bs
  calls_of (tool_use i n v ∷ bs) =
      record { call_id = i; call_name = n; arguments = dumps v } ∷ calls_of bs
  calls_of (tool_result i p e ∷ bs) = calls_of bs

  -- A turn with neither text nor calls gives no message.
  unfoldable pub assistant_messages : List Block → List Message
  unfolding calls_of
  assistant_messages bs =
      let calls = calls_of bs in
      if is_empty (texts bs)
      then (if is_empty calls then [] else assistant_message none calls ∷ [])
      else assistant_message (some (join "\n" (texts bs))) calls ∷ []

  unfoldable pub message_to_openai : Role → Content → List Message
  unfolding user_messages assistant_messages
  message_to_openai role (plain t) = text_message role t ∷ []
  message_to_openai user (blocks bs) = user_messages bs
  message_to_openai assistant (blocks bs) = assistant_messages bs

  unfoldable pub history_to_openai : List (Role × Content) → List Message
  history_to_openai [] = []
  history_to_openai ((role, content) ∷ ms) = message_to_openai role content ++ history_to_openai ms

  unfoldable pub messages_to_openai : String → List (Role × Content) → List Message
  unfolding history_to_openai
  messages_to_openai system ms =
      (if is_blank system then [] else system_message system ∷ []) ++ history_to_openai ms

unfoldable pub finish_reason_to_anthropic : String → String
finish_reason_to_anthropic reason =
    if reason == "stop"
    then "end_turn"
    else if reason == "tool_calls"
    then "tool_use"
    else if reason == "length"
    then "max_tokens"
    else if reason == "content_filter"
    then "stop_sequence"
    else reason

-- A reply of the provider: its content, its tool calls, and `finish_reason or ""`.
pub record Choice : Type 0 where
  pub content : String
  pub tool_calls : List Call
  pub finish_reason : String

module _ (loads : String → Option Json) where
  -- Arguments that cannot be decoded count as none.
  unfoldable pub decode : String → Json
  decode s = elim (loads s) [ none ↦ obj end | some v ↦ v ]

  -- `loads(arguments or "{}")`
  unfoldable pub input_of : String → Json
  unfolding decode
  input_of s = decode (if is_blank s then "{}" else s)

  -- `tool_call` takes the first call.
  unfoldable pub read_tool_call : Choice → ToolReply
  unfolding decode
  read_tool_call c = elim c.tool_calls [
    | [] ↦ text_only_result c.content c.finish_reason
    | call ∷ calls ↦
        tool_call_result call.call_name (decode call.arguments) c.content c.finish_reason
  ]

  unfoldable pub call_blocks : List Call → List Block
  unfolding input_of
  call_blocks calls = map (λ c. tool_use c.call_id c.call_name (input_of c.arguments)) calls

  unfoldable pub read_messages : Choice → MessagesResult
  unfolding call_blocks finish_reason_to_anthropic
  read_messages c = record {
    content = (if is_blank c.content then [] else text c.content ∷ []) ++ call_blocks c.tool_calls;
    stop_reason = finish_reason_to_anthropic c.finish_reason;
  }

-- A fragment of a tool call in a stream; what is missing or empty is empty.
pub record Delta : Type 0 where
  pub index : ℕ
  pub delta_id : String
  pub delta_name : String
  pub delta_args : String

-- What is known of a call: its arguments are the pieces in order.
pub record Frag : Type 0 where
  pub frag_id : String
  pub frag_name : String
  pub pieces : List String

abbrev pub no_frag : Frag
no_frag = record { frag_id = ""; frag_name = ""; pieces = [] }

unfoldable pub frag_of : Dict ℕ Frag → ℕ → Frag
frag_of d i = elim (Dict.get d i) [ none ↦ no_frag | some f ↦ f ]

unfoldable pub merge : Delta → Frag → Frag
merge c f = record {
  frag_id = if is_blank c.delta_id then f.frag_id else c.delta_id;
  frag_name = if is_blank c.delta_name then f.frag_name else c.delta_name;
  pieces = if is_blank c.delta_args then f.pieces else f.pieces ++ c.delta_args ∷ [];
}

-- The loop over the fragments of the chunks.
unfoldable pub accumulate : List Delta → Dict ℕ Frag → Dict ℕ Frag
unfolding frag_of merge
accumulate [] d = d
accumulate (c ∷ cs) d = accumulate cs (Dict.put d c.index (merge c (frag_of d c.index)))

-- The calls by ascending index, each with its joined arguments.
unfoldable pub streamed_calls : Dict ℕ Frag → List Call
streamed_calls d =
    map
      (λ e. record {
        call_id = e.1.frag_id;
        call_name = e.1.frag_name;
        arguments = join "" e.1.pieces;
      })
      (sort (λ a b. leb a.0 b.0) d)
