-- ===== src/Schemas.antt =====
-- ai_service/src/fos_ai/schemas.py, schemas_chat.py: the data that the services exchange.
-- Identifiers of the database are natural numbers, prices are cents, times are clock ticks.
use food_order_system.Base.{ℕ, String, Option, List, [], ◌∷◌, ◌++◌, Bool}
use food_order_system.Base.Json.{Json}

pub record FoodMeta : Type 0 where
  pub food_id : ℕ
  pub food_name : String
  pub restaurant_id : ℕ
  pub restaurant_name : String
  pub unit_price : ℕ
  pub description : String
  pub preferences : String

pub record OrderDraftItem : Type 0 where
  pub item_food_id : ℕ
  pub item_food_name : String
  pub quantity : ℕ
  pub item_unit_price : ℕ

pub record OrderDraft : Type 0 where
  pub draft_restaurant_id : ℕ
  pub draft_restaurant_name : String
  pub delivery_option : String
  pub items : List OrderDraftItem
  pub estimated_total : ℕ

-- An entry of the content list of a tool result: a text, or another block.
pub data Part : Type 0 where
  part_text : String → Part
  part_other : Part

-- The content of a tool result: missing, a text, or a list.
pub data ResultContent : Type 0 where
  no_content : ResultContent
  whole_text : String → ResultContent
  parts : List Part → ResultContent

-- A block of a message: text, a tool call by the model, or the result of one.
pub data Block : Type 0 where
  text : String → Block
  tool_use : (id name : String) → (input : Json) → Block
  tool_result : (tool_use_id : String) → (payload : ResultContent) → (is_error : Bool) → Block

pub data Role : Type 0 where
  user assistant : Role

pub record ChatMessage : Type 0 where
  pub role : Role
  pub content : List Block
  pub sent_at : ℕ

pub record ChatSession : Type 0 where
  pub session_id : String
  pub user_id : ℕ
  pub messages : List ChatMessage
  pub created_at : ℕ
  pub last_active_at : ℕ

-- `ChatSession.new`, with the identifier that `uuid4` gave.
unfoldable pub new_session : ℕ → String → ℕ → ChatSession
new_session now id owner = record {
  session_id = id;
  user_id = owner;
  messages = [];
  created_at = now;
  last_active_at = now;
}

unfoldable pub touch : ℕ → ChatSession → ChatSession
touch now s = record s { last_active_at = now }

unfoldable pub append : ℕ → ChatMessage → ChatSession → ChatSession
unfolding touch
append now m s = touch now (record s { messages = s.messages ++ m ∷ [] })

pub record ToolCallRecord : Type 0 where
  pub tool : String
  pub tool_input : Json
  pub output : Json
  pub error : Option String
