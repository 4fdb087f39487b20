-- ===== src/Intent/Schema.antt =====
-- The tool definition of the intent classifier.
use food_order_system.Base.Int.{pos}
use food_order_system.Base.Json.{decimal, str, arr, obj, nil, cons, end, field}
use food_order_system.Llm.{ToolDef}

unfoldable pub classify_tool : ToolDef
classify_tool = record {
  tool_name = "classify_intent";
  description =
      "Return the user's intent label and a calibrated confidence in [0, 1]. Always call this tool exactly once.";
  input_schema = obj (
      field "type" (str "object") (
        field "properties"
          (obj (
            field "label"
              (obj (
                field "type" (str "string") (
                  field "enum"
                    (arr (
                      cons (str "search") (
                        cons (str "recommend") (
                          cons (str "order") (
                            cons (str "status_check") (
                              cons (str "cancel") (
                                cons (str "rating") (
                                  cons (str "menu_browse")
                                    (cons (str "chitchat") (cons (str "complaint") nil))))))))))
                    (field "description" (str "The single most likely intent.") end))))
              (field "confidence"
                (obj (
                  field "type" (str "number") (
                    field "minimum" (decimal (pos 0) 1) (
                      field "maximum" (decimal (pos 10) 1)
                        (field "description" (str "Confidence in the chosen label.") end)))))
                end)))
          (field "required" (arr (cons (str "label") (cons (str "confidence") nil))) end)));
}
