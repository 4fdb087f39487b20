-- ===== src/Parser/Schema.antt =====
-- The tool definition of the order parser.
use food_order_system.Base.Int.{pos}
use food_order_system.Base.Json.{int, str, arr, obj, nil, cons, end, field}
use food_order_system.Llm.{ToolDef}

unfoldable pub order_draft_tool : ToolDef
order_draft_tool = record {
  tool_name = "create_order_draft";
  description =
      "Create a structured order draft from the user's natural-language request. Return the restaurant, delivery option, and a list of items with quantities. If the request is ambiguous or cannot be fulfilled, do NOT call this tool — reply with a text explanation instead.";
  input_schema = obj (
      field "type" (str "object") (
        field "properties"
          (obj (
            field "restaurant_name"
              (obj (
                field "type" (str "string")
                  (field "description" (str "Exact restaurant name from the menu") end)))
              (field "delivery_option"
                (obj (
                  field "type" (str "string") (
                    field "enum"
                      (arr
                        (cons (str "Standard") (cons (str "Express") (cons (str "Scheduled") nil))))
                      (field "description" (str "Delivery option, default Standard") end))))
                (field "items"
                  (obj (
                    field "type" (str "array") (
                      field "items"
                        (obj (
                          field "type" (str "object") (
                            field "properties"
                              (obj (
                                field "food_name"
                                  (obj (
                                    field "type" (str "string") (
                                      field "description" (str "Exact food name from the menu")
                                        end)))
                                  (field "quantity"
                                    (obj (
                                      field "type" (str "integer") (
                                        field "minimum" (int (pos 1))
                                          (field "description" (str "Number of this item") end))))
                                    end)))
                              (field "required"
                                (arr (cons (str "food_name") (cons (str "quantity") nil))) end))))
                        (field "minItems" (int (pos 1)) end))))
                  end))))
          (field "required" (arr (cons (str "restaurant_name") (cons (str "items") nil))) end)));
}
