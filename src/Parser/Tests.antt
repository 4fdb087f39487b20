-- ===== src/Parser/Tests.antt =====
-- A menu of two foods and a model that orders one of them and one that is not there: the theorems on
-- ai_service/src/fos_ai/services/parser.py at these.
use food_order_system.Base.{
  ℕ, suc, ◌+◌, ◌≤◌, ◌≡◌, refl, String, string_eq, Option, none, some, List, [], ◌∷◌, arith, length,
  In, first, select, is_blank, is_space, join, lstrip, rstrip, strip, has_part,
}
use food_order_system.Base.Int.{pos, is_truthy}
use food_order_system.Base.Json.{
  Json, int, str, arr, obj, Items, nil, cons, Fields, end, field, truthy, get_field,
}
use food_order_system.Base.Outcome.{Outcome, returned}
use food_order_system.Schemas.{FoodMeta}
use food_order_system.Llm.{ToolReply, ToolDef, tool_call_result}
use food_order_system.Parser.{
  ParseOrderResponse, ok, candidates, resolve_food, find_target, raw_items, text_field, read_call,
  read_reply, parse_order, respond, resolve_items, resolve_one, resolve_named, item_for,
  quantity_field, delivery_field, id_or_zero, is_hint, or_else, total_of, use_hint,
}
use food_order_system.Parser.Resolve.{resolve_food_lem}
use food_order_system.Parser.Draft.{IsSound, count_items, read_call_lem, parse_order-IsSound}

abbrev lower : String → String
lower s = s

abbrev to_quantity : Json → Option ℕ
to_quantity (int (pos (suc n))) = some (suc n)
to_quantity _ = none

positive : (j : Json) (n : ℕ) → to_quantity j ≡ some n → 1 ≤ n
positive j n h = ground arith

abbrev money : ℕ → String
money n = "9"

abbrev duck : FoodMeta
duck = record {
  food_id = 1;
  food_name = "Duck";
  restaurant_id = 4;
  restaurant_name = "Bay";
  unit_price = 1200;
  description = "";
  preferences = "";
}

abbrev menu : List FoodMeta
menu = duck ∷ record duck { food_id = 2; food_name = "Tofu"; unit_price = 700 } ∷ []

abbrev order : Fields
order = field "restaurant_name" (str "Bay") (
    field "items"
      (arr (
        cons (obj (field "food_name" (str "Duck") (field "quantity" (int (pos 2)) end)))
          (cons (obj (field "food_name" (str "Soup") end)) nil)))
      end)

abbrev llm : String → String → List ToolDef → Outcome ToolReply
llm system text tools = returned (tool_call_result "create_order_draft" (obj order) "" "tool_use")

abbrev response : ParseOrderResponse
response = record {
  draft = record {
    draft_restaurant_id = 4;
    draft_restaurant_name = "Bay";
    delivery_option = "Standard";
    items =
        record { item_food_id = 1; item_food_name = "Duck"; quantity = 2; item_unit_price = 1200 }
        ∷ [];
    estimated_total = 2400;
  };
  confidence = 85;
  issues = "Food 'Soup' not found on Bay's menu" ∷ [];
}

resolve_food_example :
    In duck menu
    × ((g : FoodMeta) → In g menu → g.restaurant_name ≡ "Bay" → duck.restaurant_name ≡ "Bay")
    × ((g : FoodMeta)
        → In g (candidates lower to_quantity money money menu "Bay")
        → g.food_name ≡ "Duck"
        → duck.food_name ≡ "Duck")
unfolding resolve_food candidates first select strip lstrip rstrip is_space or_else has_part
resolve_food_example = resolve_food_lem lower to_quantity money money "Duck" menu "Bay" duck refl

reading : read_call lower to_quantity money money menu none order ≡ ok response
unfolding respond resolve_items resolve_one resolve_named resolve_food candidates find_target
    item_for quantity_field delivery_field text_field id_or_zero is_hint or_else raw_items total_of
    use_hint read_call truthy get_field is_truthy first select is_blank is_space join lstrip rstrip
    strip has_part
reading = refl

parsing : parse_order lower to_quantity money money llm "duck and soup" menu none ≡ ok response
unfolding parse_order read_reply
parsing = reading

read_call_example :
    IsSound lower to_quantity money money positive menu response
    × ((xs : Items) × (name : String) × (raw_items lower to_quantity money money order ≡ ok xs)
        × (text_field lower to_quantity money money order "restaurant_name" "" ≡ ok name)
        × (2
            ≡ count_items xs
              + length (find_target lower to_quantity money money menu name none).target_issues))
read_call_example =
    read_call_lem lower to_quantity money money positive menu none order response reading

parse_order_example : IsSound lower to_quantity money money positive menu response
parse_order_example =
    parse_order-IsSound lower to_quantity money money positive llm "duck and soup" menu none
      response parsing
