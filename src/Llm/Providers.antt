-- ===== src/Llm/Providers.antt =====
-- ai_service/src/fos_ai/services/llm_client.py: what `AnthropicLlmClient` reads from a reply, the
-- streams of both clients, and the choice of a client. The SDKs are not in the repository: a reply is
-- what the code reads of it.
use food_order_system.Base.{
  String, string_eq, not, Option, none, some, List, [], ◌∷◌, ◌++◌, map, if◌then◌else◌, ◌==◌,
  is_empty, is_blank, join, select,
}
use food_order_system.Base.Json.{Json, obj, end, truthy}
use food_order_system.Base.Outcome.{Outcome, returned, raised}
use food_order_system.Schemas.{Block, text, tool_use}
use food_order_system.Llm.{ToolReply, tool_call_result, text_only_result, MessagesResult}
use food_order_system.Llm.OpenAi.{
  Delta, accumulate, streamed_calls, call_blocks, finish_reason_to_anthropic,
}

-- A content block of Anthropic's SDK.
pub data SdkBlock : Type 0 where
  sdk_text : String → SdkBlock
  sdk_tool_use : (id name : String) → Json → SdkBlock
  sdk_other : SdkBlock

-- `dict(block.input) if block.input else {}`
unfoldable pub dict_of : Json → Json
dict_of v = if truthy v then v else obj end

unfoldable pub content_of : List SdkBlock → List Block
unfolding dict_of
content_of [] = []
content_of (sdk_text t ∷ bs) = text t ∷ content_of bs
content_of (sdk_tool_use i n v ∷ bs) = tool_use i n (dict_of v) ∷ content_of bs
content_of (sdk_other ∷ bs) = content_of bs

unfoldable pub anthropic_messages : List SdkBlock → String → MessagesResult
unfolding content_of
anthropic_messages bs stop = record { content = content_of bs; stop_reason = stop }

-- The loop of `tool_call`: the last tool block stays, and the texts.
unfoldable pub scan :
    List SdkBlock → Option (String × Json) → List String → Option (String × Json) × List String
scan [] tool parts = (tool, parts)
scan (sdk_text t ∷ bs) tool parts = scan bs tool (parts ++ t ∷ [])
scan (sdk_tool_use i n v ∷ bs) tool parts = scan bs (some (n, v)) parts
scan (sdk_other ∷ bs) tool parts = scan bs tool parts

unfoldable pub anthropic_tool_call : List SdkBlock → String → ToolReply
unfolding scan dict_of
anthropic_tool_call bs stop =
    let (tool, parts) = scan bs none [] in
    elim tool [
      | none ↦ text_only_result (join "\n" parts) stop
      | some (name, input) ↦ tool_call_result name (dict_of input) (join "\n" parts) stop
    ]

pub data StreamEvent : Type 0 where
  text_delta : String → StreamEvent
  message_stop : (stop_reason : String) → List Block → StreamEvent

-- The text deltas of the stream, and then the final message.
unfoldable pub anthropic_stream : List String → List SdkBlock → String → List StreamEvent
unfolding content_of
anthropic_stream deltas final stop =
    map (λ t. text_delta t) deltas ++ message_stop stop (content_of final) ∷ []

-- A chunk of OpenAI's stream with a choice; what is missing is empty.
pub record Chunk : Type 0 where
  pub content : String
  pub tool_deltas : List Delta
  pub finish_reason : String

-- `text_buf`
unfoldable pub text_buf : List Chunk → List String
text_buf chunks = select (λ t. not (is_blank t)) (map (λ c. c.content) chunks)

unfoldable pub deltas_of : List Chunk → List Delta
deltas_of [] = []
deltas_of (c ∷ cs) = c.tool_deltas ++ deltas_of cs

-- The last finish reason that is not empty.
unfoldable pub last_reason : List Chunk → String → String
last_reason [] reason = reason
last_reason (c ∷ cs) reason =
    last_reason cs (if is_blank c.finish_reason then reason else c.finish_reason)

module _ (loads : String → Option Json) where
  unfoldable pub final_content : List Chunk → List Block
  unfolding text_buf deltas_of streamed_calls
  final_content chunks =
      (if is_empty (text_buf chunks) then [] else text (join "" (text_buf chunks)) ∷ [])
      ++ call_blocks loads (streamed_calls (accumulate (deltas_of chunks) []))

  -- The events of the stream; a chunk without a choice is skipped and not listed.
  unfoldable pub openai_stream : List Chunk → List StreamEvent
  unfolding final_content last_reason finish_reason_to_anthropic
  openai_stream chunks =
      map (λ t. text_delta t) (text_buf chunks)
      ++ message_stop (finish_reason_to_anthropic (last_reason chunks "")) (final_content chunks)
        ∷ []

pub record Settings : Type 0 where
  pub api_key : Option String
  pub base_url : Option String
  pub model : String

pub data Client : Type 0 where
  openai_client : (api_key model : String) → (base_url : Option String) → Client
  anthropic_client : (api_key model : String) → (base_url : Option String) → Client

-- `if not key`: a missing key and an empty one are refused.
unfoldable pub with_key : Option String → String → (String → Client) → Outcome Client
with_key none message make = raised message
with_key (some key) message make = if is_blank key then raised message else returned (make key)

unfoldable pub create_llm_client : String → Settings → Settings → Outcome Client
unfolding with_key
create_llm_client provider anthropic openai =
    if provider == "openai"
    then with_key openai.api_key "OPENAI_API_KEY is required when LLM_PROVIDER=openai"
        (λ key. openai_client key openai.model openai.base_url)
    else if provider == "anthropic"
    then with_key anthropic.api_key "ANTHROPIC_API_KEY is required when LLM_PROVIDER=anthropic"
        (λ key. anthropic_client key anthropic.model anthropic.base_url)
    else raised (join "" ("Unknown LLM provider: '" ∷ provider ∷ "'" ∷ []))
