-- ===== src/Chat/Tools.antt =====
-- ai_service/src/fos_ai/services/chat_tools.py: the tools that the model may call, and their
-- dispatch to the services. What a service does is an interface here.
mod Schemas
pub mod Dispatch
use food_order_system.Base.{
  ℕ, String, string_eq, Bool, true, false, not, Option, none, some, List, [], ◌∷◌, if◌then◌else◌,
  ◌==◌, is_blank, strip, length, join,
}
use food_order_system.Base.Int.{ℤ, pos, negsuc, is_non_positive}
use food_order_system.Base.Json.{
  Json, null, boolean, int, decimal, str, arr, obj, Items, nil, cons, Fields, end, field, truthy,
  get_field,
}
use food_order_system.Base.Outcome.{Outcome, returned, raised}
use food_order_system.Llm.{ToolDef}
use Schemas.{
  search_menu_tool, create_order_draft_tool, check_order_status_tool, get_recommendations_tool,
}

abbrev pub all_tools : List ToolDef
all_tools =
    search_menu_tool ∷ create_order_draft_tool ∷ check_order_status_tool ∷ get_recommendations_tool
    ∷ []

-- How parsing an order ends: a draft, a `ValueError`, or another exception.
pub data Parsed : Type 0 where
  parsed : Json → Parsed
  value_error : String → Parsed
  failure : String → Parsed

-- `int(v)`: a number, a `ValueError`, or another exception.
pub data Converted : Type 0 where
  number : ℤ → Converted
  bad_value : String → Converted
  bad_type : String → Converted

-- The services that the tools call, on a world `W`; `menu`, `corpus`, `llm`, `db_conn` and
-- `user_id` of the context are inside them. `to_int` is `int(v)` and
-- `display` is `str(v)`.
pub record Services (W : Type 0) : Type 0 where
  pub search : W → String → ℤ → Outcome (List Json) × W
  pub parse_order : W → String → Option ℤ → Parsed × W
  pub fetch_order_status : W → ℤ → Outcome (Option Json) × W
  pub recommend : W → ℤ → Outcome (String × Bool × List Json) × W
  pub to_int : Json → Converted
  pub display : Json → String

unfoldable pub items_of : List Json → Items
items_of [] = nil
items_of (j ∷ js) = cons j (items_of js)

-- What a handler does: it returns, raises a `ToolError`, or raises something else.
pub data Handled : Type 0 where
  result : Json → Handled
  tool_error : String → Handled
  other_error : String → Handled

abbrev pub of_outcome : {A W : Type 0} → Outcome A × W → (A → Handled) → Handled × W
of_outcome (returned a, w) f = (f a, w)
of_outcome (raised e, w) f = (other_error e, w)

-- `args.get(key, default).strip()`: a value that is no text has no `strip`.
unfoldable pub text_arg : Fields → String → Option String
text_arg args key = elim (get_field args key) [
  | none ↦ some ""
  | some v ↦ elim v [ str s ↦ some (strip s) | _ ↦ none ]
]

-- `isinstance(v, int)`: Python's booleans are integers.
unfoldable pub number_of : Json → Option ℤ
number_of (int n) = some n
number_of (boolean true) = some (pos 1)
number_of (boolean false) = some (pos 0)
number_of _ = none

-- `handler(tool_input or {})` and the first `args.get`: what is no dictionary has no `get`.
unfoldable pub fields_of : Json → Option Fields
fields_of (obj fs) = some fs
fields_of v = if truthy v then none else some end

pub data Tool : Type 0 where
  search_menu create_order_draft check_order_status get_recommendations : Tool

-- `self._handlers.get(tool_name)`
unfoldable pub handler_of : String → Option Tool
handler_of name =
    if name == "search_menu"
    then some search_menu
    else if name == "create_order_draft"
    then some create_order_draft
    else if name == "check_order_status"
    then some check_order_status
    else if name == "get_recommendations"
    then some get_recommendations
    else none

-- `args.get("limit", 5)`
unfoldable pub limit_arg : Fields → Json
limit_arg args = elim (get_field args "limit") [ none ↦ int (pos 5) | some v ↦ v ]

module _ {W : Type 0} (s : Services W) where
  found : String → List Json → Handled
  found query results = result (
      obj (
        field "query" (str query) (
          field "count" (int (pos (length results)))
            (field "results" (arr (items_of results)) end))))

  search_with : W → String → Converted → Handled × W
  search_with w query (number limit) = of_outcome (s.search w query limit) (found query)
  search_with w query (bad_value e) = (other_error e, w)
  search_with w query (bad_type e) = (other_error e, w)

  unfoldable pub handle_search : W → Fields → Handled × W
  unfolding search_with found items_of limit_arg
  handle_search w args = elim (text_arg args "query") [
    | none ↦ (other_error "'query' has no attribute 'strip'", w)
    | some query ↦
        if is_blank query
        then (tool_error "search_menu requires non-empty 'query'", w)
        else search_with w query (s.to_int (limit_arg args))
  ]

  drafted : Parsed × W → Handled × W
  drafted (parsed draft, w) = (result draft, w)
  drafted (value_error e, w) = (tool_error e, w)
  drafted (failure e, w) = (other_error e, w)

  draft_with : W → String → Converted → Handled × W
  unfolding drafted
  draft_with w text (number hint) = drafted (s.parse_order w text (some hint))
  draft_with w text (bad_value e) = (tool_error e, w)
  draft_with w text (bad_type e) = (other_error e, w)

  -- `int(hint) if hint else None` stands inside the `try` for `ValueError`.
  hinted : W → String → Option Json → Handled × W
  unfolding draft_with
  hinted w text none = drafted (s.parse_order w text none)
  hinted w text (some hint) =
      if truthy hint then draft_with w text (s.to_int hint) else drafted (s.parse_order w text none)

  unfoldable pub handle_draft : W → Fields → Handled × W
  unfolding hinted
  handle_draft w args = elim (text_arg args "text") [
    | none ↦ (other_error "'text' has no attribute 'strip'", w)
    | some text ↦
        if is_blank text
        then (tool_error "create_order_draft requires non-empty 'text'", w)
        else hinted w text (get_field args "restaurant_hint_id")
  ]

  status_of : Json → Option Json → Handled
  status_of v none =
      tool_error (join "" ("order " ∷ s.display v ∷ " not found or not owned by user" ∷ []))
  status_of v (some status) = result status

  status_with : W → Json → Option ℤ → Handled × W
  unfolding status_of
  status_with w v none = (tool_error "check_order_status requires positive integer 'order_id'", w)
  status_with w v (some id) =
      if is_non_positive id
      then (tool_error "check_order_status requires positive integer 'order_id'", w)
      else of_outcome (s.fetch_order_status w id) (status_of v)

  unfoldable pub handle_status : W → Fields → Handled × W
  unfolding status_with
  handle_status w args = elim (get_field args "order_id") [
    | none ↦ status_with w null none
    | some v ↦ status_with w v (number_of v)
  ]

  recommended : String × Bool × List Json → Handled
  recommended (strategy, has_history, items) = result (
      obj (
        field "strategy" (str strategy) (
          field "user_has_history" (boolean has_history)
            (field "count" (int (pos (length items))) (field "items" (arr (items_of items)) end)))))

  recommend_with : W → Converted → Handled × W
  unfolding recommended
  recommend_with w (number limit) = of_outcome (s.recommend w limit) recommended
  recommend_with w (bad_value e) = (other_error e, w)
  recommend_with w (bad_type e) = (other_error e, w)

  unfoldable pub handle_recommend : W → Fields → Handled × W
  unfolding recommend_with items_of limit_arg
  handle_recommend w args = recommend_with w (s.to_int (limit_arg args))

  unfoldable pub handle : Tool → W → Fields → Handled × W
  handle search_menu w args = handle_search w args
  handle create_order_draft w args = handle_draft w args
  handle check_order_status w args = handle_status w args
  handle get_recommendations w args = handle_recommend w args

  -- Every exception that is no `ToolError` becomes one that names the tool.
  surface : String → Handled × W → Outcome Json × W
  surface name (result v, w) = (returned v, w)
  surface name (tool_error e, w) = (raised e, w)
  surface name (other_error e, w) = (raised (join "" (name ∷ " failed: " ∷ e ∷ [])), w)

  dispatch : W → String → Tool → Option Fields → Outcome Json × W
  unfolding surface
  dispatch w name t none = surface name (other_error "no attribute 'get'", w)
  dispatch w name t (some args) = surface name (handle t w args)

  unfoldable pub execute : W → String → Json → Outcome Json × W
  unfolding dispatch handler_of fields_of
  execute w name input = elim (handler_of name) [
    | none ↦ (raised (join "" ("unknown tool: " ∷ name ∷ [])), w)
    | some t ↦ dispatch w name t (fields_of input)
  ]
