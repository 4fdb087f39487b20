-- ===== src/Parser.antt =====
-- ai_service/src/fos_ai/services/parser.py: free text into an order draft, by a tool call of the
-- language model. `lower` is `str.lower`, `to_quantity` the validation of `OrderDraftItem.quantity`
-- by pydantic, and `money` and `show_id` format a price and a number. A confidence is in hundredths.
mod Schema
pub mod Prompt
pub mod Resolve
pub mod Draft
mod Tests
use food_order_system.Base.{
  ℕ, zero, suc, ◌+◌, ◌-◌, ◌*◌, String, string_eq, nat_eq, Bool, true, false, not, ◌&&◌, ◌||◌,
  Option, none, some, List, [], ◌∷◌, ◌++◌, if◌then◌else◌, ◌==◌, is_blank, is_empty, strip, has_part,
  length, join, select, first,
}
use food_order_system.Base.Int.{pos}
use food_order_system.Base.Json.{
  Json, int, str, arr, obj, Items, nil, cons, Fields, get_field, truthy,
}
use food_order_system.Base.Outcome.{Outcome, returned, raised}
use food_order_system.Schemas.{FoodMeta, OrderDraft, OrderDraftItem}
use food_order_system.Llm.{ToolReply, tool_call_result, text_only_result, ToolDef}
use food_order_system.Parser.Prompt.{system_prompt}
use Schema.{order_draft_tool}

pub record ParseOrderResponse : Type 0 where
  pub draft : OrderDraft
  pub confidence : ℕ
  pub issues : List String

-- `value_error` is a `ValueError`, pydantic's `ValidationError` among them; `crashed` is any other
-- exception.
pub data Parsed (A : Type 0) : Type 0 where
  ok : A → Parsed A
  value_error : String → Parsed A
  crashed : String → Parsed A

infixl 6 ◌>>=◌
abbrev pub ◌>>=◌ : {A B : Type 0} → Parsed A → (A → Parsed B) → Parsed B
crashed message >>= next = crashed message
value_error message >>= next = value_error message
ok value >>= next = next value

-- The restaurant that the draft is for, and the issues met in finding it.
pub record Target : Type 0 where
  pub target_id : Option ℕ
  pub target_name : String
  pub target_issues : List String

-- The items resolved so far, and the issues.
pub record Resolved : Type 0 where
  pub items : List OrderDraftItem
  pub issues : List String

-- `if hint:`
unfoldable pub is_hint : Option ℕ → Bool
is_hint none = false
is_hint (some zero) = false
is_hint (some (suc n)) = true

module _ (lower : String → String) (to_quantity : Json → Option ℕ) (money : ℕ → String)
    (show_id : ℕ → String) where
  -- The items of the restaurant, or the whole menu if it has none.
  unfoldable pub candidates : List FoodMeta → String → List FoodMeta
  candidates menu restaurant =
      let own = select (λ f. lower f.restaurant_name == lower restaurant) menu in
      if is_empty own then menu else own

  -- `or_else x y` is `x`, or `y` where `x` found nothing.
  unfoldable pub or_else : Option FoodMeta → Option FoodMeta → Option FoodMeta
  or_else none y = y
  or_else (some f) y = some f

  -- An exact match, else one that ignores case, else a substring either way.
  unfoldable pub resolve_food : String → List FoodMeta → String → Option FoodMeta
  unfolding or_else
  resolve_food name menu restaurant =
      let key = strip (lower name) in
      let foods = candidates menu restaurant in
      or_else (first (λ f. f.food_name == name) foods) (
        or_else (first (λ f. lower f.food_name == key) foods)
          (first (λ f. has_part key (lower f.food_name) || has_part (lower f.food_name) key) foods))

  -- The hint as a last resort: its restaurant's name, if the menu has it.
  unfoldable pub use_hint : List FoodMeta → String → Option ℕ → Target
  use_hint menu name none = record {
    target_id = none;
    target_name = name;
    target_issues = join "" ("Restaurant '" ∷ name ∷ "' not found in menu" ∷ []) ∷ [];
  }
  use_hint menu name (some hint) = record {
    target_id = if is_hint (some hint) then some hint else none;
    target_name = elim (first (λ f. is_hint (some hint) && (f.restaurant_id == hint)) menu) [
      | none ↦ name
      | some f ↦ f.restaurant_name
    ];
    target_issues = join "" ("Restaurant '" ∷ name ∷ "' not found in menu" ∷ []) ∷ [];
  }

  -- The restaurant by its name, else by a part of a name, else by the hint.
  unfoldable pub find_target : List FoodMeta → String → Option ℕ → Target
  unfolding use_hint
  find_target menu name hint = elim (first (λ f. lower f.restaurant_name == lower name) menu) [
    | some f ↦ record { target_id = some f.restaurant_id; target_name = name; target_issues = [] }
    | none ↦ elim (first (λ f. has_part (lower name) (lower f.restaurant_name)) menu) [
      | some f ↦ record {
        target_id = some f.restaurant_id;
        target_name = f.restaurant_name;
        target_issues = [];
      }
      | none ↦ use_hint menu name hint
    ]
  ]

  -- `inp.get(key, default)` where the code goes on to use a text.
  unfoldable pub text_field : Fields → String → String → Parsed String
  text_field fs key default = elim (get_field fs key) [
    | none ↦ ok default
    | some v ↦ elim v [ str s ↦ ok s | _ ↦ crashed "not a text" ]
  ]

  -- `OrderDraft` takes only a text for the delivery option.
  unfoldable pub delivery_field : Fields → Parsed String
  delivery_field fs = elim (get_field fs "delivery_option") [
    | none ↦ ok "Standard"
    | some v ↦ elim v [ str s ↦ ok s | _ ↦ value_error "delivery_option: not a text" ]
  ]

  unfoldable pub quantity_field : Fields → Json
  quantity_field fs = elim (get_field fs "quantity") [ none ↦ int (pos 1) | some v ↦ v ]

  -- The item for a food, once its quantity is valid.
  unfoldable pub item_for : FoodMeta → Json → Parsed OrderDraftItem
  item_for f quantity = elim (to_quantity quantity) [
    | none ↦ value_error "quantity: not an integer of at least 1"
    | some n ↦ ok (record {
      item_food_id = f.food_id;
      item_food_name = f.food_name;
      quantity = n;
      item_unit_price = f.unit_price;
    })
  ]

  -- The food of a name becomes an item, or its absence an issue.
  unfoldable pub resolve_named : List FoodMeta → String → String → Json → Resolved → Parsed Resolved
  resolve_named menu restaurant name quantity r = elim (resolve_food name menu restaurant) [
    | none ↦ ok (record r {
      issues =
          r.issues
          ++ join "" ("Food '" ∷ name ∷ "' not found on " ∷ restaurant ∷ "'s menu" ∷ []) ∷ [];
    })
    | some f ↦ item_for f quantity >>= λ i. ok (record r { items = r.items ++ i ∷ [] })
  ]

  -- One turn of the loop over `raw_items`.
  unfoldable pub resolve_one : List FoodMeta → String → Json → Resolved → Parsed Resolved
  resolve_one menu restaurant (obj fs) r = do
    name ← text_field fs "food_name" ""
    resolve_named menu restaurant name (quantity_field fs) r
  resolve_one menu restaurant _ r = crashed "an item has no attribute 'get'"

  unfoldable pub resolve_items : List FoodMeta → String → Items → Resolved → Parsed Resolved
  resolve_items menu restaurant nil r = ok r
  resolve_items menu restaurant (cons raw raws) r =
      resolve_one menu restaurant raw r >>= λ r'. resolve_items menu restaurant raws r'

  unfoldable pub total_of : List OrderDraftItem → ℕ
  total_of [] = 0
  total_of (i ∷ is) = i.item_unit_price * i.quantity + total_of is

  -- `restaurant_id or 0`
  unfoldable pub id_or_zero : Option ℕ → ℕ
  id_or_zero none = 0
  id_or_zero (some n) = n

  -- The response for what was resolved.
  unfoldable pub respond : Target → Fields → Resolved → Parsed ParseOrderResponse
  unfolding total_of id_or_zero delivery_field
  respond t fs r =
      if is_empty r.items
      then value_error (
          join "" (
            "LLM_REFUSED: none of the requested items could be resolved. Issues: "
            ∷ join "; " r.issues
            ∷ []))
      else (do
        delivery ← delivery_field fs
        ok (record {
          draft = record {
            draft_restaurant_id = id_or_zero t.target_id;
            draft_restaurant_name = t.target_name;
            delivery_option = delivery;
            items = r.items;
            estimated_total = total_of r.items;
          };
          confidence = 100 - 15 * length r.issues;
          issues = r.issues;
        }))

  -- The items of the call; a list is iterated, and anything else fails in the loop.
  unfoldable pub raw_items : Fields → Parsed Items
  raw_items fs = elim (get_field fs "items") [
    | none ↦ value_error "LLM_REFUSED: tool call returned empty items list"
    | some v ↦
        if truthy v
        then elim v [ arr xs ↦ ok xs | _ ↦ crashed "items is no list" ]
        else value_error "LLM_REFUSED: tool call returned empty items list"
  ]

  unfoldable pub read_call : List FoodMeta → Option ℕ → Fields → Parsed ParseOrderResponse
  unfolding raw_items
  read_call menu hint fs = do
    items ← raw_items fs
    name ← text_field fs "restaurant_name" ""
    let t = find_target menu name hint
    r ← resolve_items menu t.target_name items (record { items = []; issues = t.target_issues })
    respond t fs r

  unfoldable pub read_reply : List FoodMeta → Option ℕ → ToolReply → Parsed ParseOrderResponse
  unfolding read_call
  read_reply menu hint (text_only_result text stop) =
      value_error (join "" ("LLM_REFUSED: " ∷ text ∷ []))
  read_reply menu hint (tool_call_result name input raw stop) =
      if not (name == "create_order_draft")
      then value_error (join "" ("LLM called unexpected tool: " ∷ name ∷ []))
      else elim input [
        | obj fs ↦ read_call menu hint fs
        | _ ↦ crashed "the input has no attribute 'get'"
      ]

  -- `llm` is `LlmClient.tool_call`: the system prompt, the text and the tools.
  unfoldable pub parse_order :
      (String → String → List ToolDef → Outcome ToolReply)
      → String
      → List FoodMeta
      → Option ℕ
      → Parsed ParseOrderResponse
  unfolding read_reply
  parse_order llm user_text menu hint =
      elim (llm (system_prompt money show_id menu hint) user_text (order_draft_tool ∷ [])) [
        | raised e ↦ crashed e
        | returned reply ↦ read_reply menu hint reply
      ]
