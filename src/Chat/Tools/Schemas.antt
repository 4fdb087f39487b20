-- ===== src/Chat/Tools/Schemas.antt =====
-- The tool definitions that the model is shown.
use food_order_system.Base.Int.{pos}
use food_order_system.Base.Json.{int, str, arr, obj, nil, cons, end, field}
use food_order_system.Llm.{ToolDef}

unfoldable pub search_menu_tool : ToolDef
search_menu_tool = record {
  tool_name = "search_menu";
  description =
      "Search the restaurant menu by a free-text query. Returns up to `limit` relevant food items with their restaurant, price, and relevance score. Use this when the user is exploring options or hasn't picked a specific dish.";
  input_schema = obj (
      field "type" (str "object") (
        field "properties"
          (obj (
            field "query"
              (obj (
                field "type" (str "string") (
                  field "description"
                    (str "Free-text search, e.g. 'spicy noodles' or 'vegetarian pasta'.") end)))
              (field "limit"
                (obj (
                  field "type" (str "integer") (
                    field "minimum" (int (pos 1)) (
                      field "maximum" (int (pos 10))
                        (field "description" (str "Max results to return (default 5).") end)))))
                end)))
          (field "required" (arr (cons (str "query") nil)) end)));
}

unfoldable pub create_order_draft_tool : ToolDef
create_order_draft_tool = record {
  tool_name = "create_order_draft";
  description =
      "Parse the user's natural-language order into a structured draft. Use this AFTER the user has decided on specific dishes and a restaurant. The draft is not committed — the user must confirm separately via the API.";
  input_schema = obj (
      field "type" (str "object") (
        field "properties"
          (obj (
            field "text"
              (obj (
                field "type" (str "string")
                  (field "description" (str "The user's order description verbatim.") end)))
              (field "restaurant_hint_id"
                (obj (
                  field "type" (str "integer") (
                    field "description" (str "Optional restaurant id to scope the menu lookup.")
                      end)))
                end)))
          (field "required" (arr (cons (str "text") nil)) end)));
}

unfoldable pub check_order_status_tool : ToolDef
check_order_status_tool = record {
  tool_name = "check_order_status";
  description =
      "Look up the current status of one of the user's existing orders. Returns status (Pending/Confirmed/Preparing/Delivering/Delivered/Cancelled), restaurant, total amount, and rating if any.";
  input_schema = obj (
      field "type" (str "object") (
        field "properties"
          (obj (
            field "order_id"
              (obj (
                field "type" (str "integer") (
                  field "minimum" (int (pos 1))
                    (field "description" (str "The order id to look up.") end))))
              end))
          (field "required" (arr (cons (str "order_id") nil)) end)));
}

unfoldable pub get_recommendations_tool : ToolDef
get_recommendations_tool = record {
  tool_name = "get_recommendations";
  description =
      "Recommend dishes for the current user based on their past order history. Falls back to popular items for new users. Use this when the user asks for suggestions or doesn't know what to order.";
  input_schema = obj (
      field "type" (str "object") (
        field "properties"
          (obj (
            field "limit"
              (obj (
                field "type" (str "integer") (
                  field "minimum" (int (pos 1)) (
                    field "maximum" (int (pos 10)) (
                      field "description" (str "Max recommendations to return (default 5).")
                        end)))))
              end))
          (field "required" (arr nil) end)));
}
