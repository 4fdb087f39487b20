-- ===== src/Intent/Tests.antt =====
-- A model that names an intent: the theorem on ai_service/src/fos_ai/services/intent_classifier.py at it.
use food_order_system.Base.{
  String, string_eq, some, List, refl, is_blank, is_space, strip, lstrip, rstrip, contains,
}
use food_order_system.Base.Int.{pos}
use food_order_system.Base.Json.{int, str, obj, end, field, get_field, truthy}
use food_order_system.Base.Outcome.{Outcome, returned}
use food_order_system.Base.Whole.{whole}
use food_order_system.Llm.{ToolReply, ToolDef, tool_call_result}
use food_order_system.Intent.{
  classify, read_reply, read_payload, payload_of, known, label_of, confidence_of, clip,
}
use food_order_system.Intent.Labels.{IsIntent, classify-IsIntent}

abbrev llm : String → String → List ToolDef → Outcome ToolReply
llm system text tools = returned (
    tool_call_result "classify_intent"
      (obj (field "label" (str "order") (field "confidence" (int (pos 7)) end))) "" "tool_use")

-- A confidence above one is cut down to one.
classify_example : IsIntent whole 1 refl (λ v. some 7) "order" 1
unfolding classify read_reply read_payload payload_of known label_of confidence_of clip is_blank
    is_space strip lstrip rstrip contains get_field truthy
classify_example = classify-IsIntent whole 1 refl (λ v. some 7) llm "two ducks" "order" 1 refl
