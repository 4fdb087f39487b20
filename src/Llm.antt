-- ===== src/Llm.antt =====
-- ai_service/src/fos_ai/services/llm_client.py: the provider-agnostic results.
pub mod OpenAi
pub mod Conversion
pub mod Providers
pub mod Stream
pub mod Fragments
pub mod Final
mod Tests
use food_order_system.Base.{String, List, [], ◌∷◌, join}
use food_order_system.Base.Json.{Json}
use food_order_system.Schemas.{Block, text, tool_use, tool_result}

-- A tool-calling reply: a call of a tool, or only text.
pub data ToolReply : Type 0 where
  tool_call_result :
      (tool_name : String) → (tool_input : Json) → (raw_text stop_reason : String) → ToolReply
  text_only_result : (text stop_reason : String) → ToolReply

pub record MessagesResult : Type 0 where
  pub content : List Block
  pub stop_reason : String

pub record ToolUse : Type 0 where
  pub id : String
  pub name : String
  pub input : Json

unfoldable pub texts : List Block → List String
texts [] = []
texts (text t ∷ bs) = t ∷ texts bs
texts (tool_use i n v ∷ bs) = texts bs
texts (tool_result i p e ∷ bs) = texts bs

-- `MessagesResult.text`
unfoldable pub text_of : List Block → String
unfolding texts
text_of bs = join "\n" (texts bs)

-- `MessagesResult.tool_uses`
unfoldable pub tool_uses : List Block → List ToolUse
tool_uses [] = []
tool_uses (tool_use i n v ∷ bs) = record { id = i; name = n; input = v } ∷ tool_uses bs
tool_uses (text t ∷ bs) = tool_uses bs
tool_uses (tool_result i p e ∷ bs) = tool_uses bs

-- A tool definition in Anthropic's format.
pub record ToolDef : Type 0 where
  pub tool_name : String
  pub description : String
  pub input_schema : Json
