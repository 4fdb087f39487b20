-- ===== src/Intent.antt =====
-- ai_service/src/fos_ai/services/intent_classifier.py: the classifier that asks the language model.
-- `to_float` is `float(v)`, with `none` for what it refuses, `one` is 1.0. The
-- messages of the exceptions leave out the `repr` of the value they name.
mod Schema
pub mod Labels
mod Tests
use food_order_system.Base.{
  ℕ, String, string_eq, Bool, true, false, not, ◌||◌, Option, none, some, List, [], ◌∷◌,
  if◌then◌else◌, is_blank, strip, join, contains,
}
use food_order_system.Base.Float.{Float}
use food_order_system.Base.Json.{Json, obj, str, Fields, end, get_field, truthy}
use food_order_system.Base.Outcome.{Outcome, returned, raised}
use food_order_system.Llm.{ToolReply, tool_call_result, text_only_result, ToolDef}
use Schema.{classify_tool}

abbrev pub intent_labels : List String
intent_labels =
    "search" ∷ "recommend" ∷ "order" ∷ "status_check" ∷ "cancel" ∷ "rating" ∷ "menu_browse"
    ∷ "chitchat" ∷ "complaint" ∷ []

abbrev pub system_prompt : String
system_prompt = join "" (
    "You classify user utterances for a food-ordering app into one of 9 intents: "
    ∷ join ", " intent_labels
    ∷ ". Always reply by calling the classify_intent tool — no prose."
    ∷ [])

-- A label that is no text is in no list of texts.
unfoldable pub label_of : Fields → Option String
label_of payload = elim (get_field payload "label") [
  | none ↦ some ""
  | some v ↦ elim v [ str s ↦ some s | _ ↦ none ]
]

unfoldable pub known : Option String → Option String
known none = none
known (some label) = if contains intent_labels label then some label else none

-- `result.tool_input or {}`; what is no dictionary has no `get`.
unfoldable pub payload_of : Json → Option Fields
payload_of (obj fs) = some fs
payload_of v = if truthy v then none else some end

module _ (fl : Float) (one : fl.F) where
  open fl use {F, zero_f, leb_f}

  -- A label and a confidence; `IntentUnavailable`; or another exception.
  pub data Classified : Type 0 where
    labelled : String → F → Classified
    unavailable : String → Classified
    crashed : String → Classified

  -- `max(0.0, min(1.0, x))`
  unfoldable pub clip : F → F
  clip x = let low = if leb_f one x then one else x in if leb_f low zero_f then zero_f else low

  module _ (to_float : Json → Option F) where
    unfoldable pub confidence_of : Fields → Option F
    confidence_of payload = elim (get_field payload "confidence") [
      | none ↦ some zero_f
      | some v ↦ to_float v
    ]

    unfoldable pub read_payload : Fields → Classified
    unfolding known label_of confidence_of clip
    read_payload payload = elim (known (label_of payload)) [
      | none ↦ unavailable "LLM returned unknown label"
      | some label ↦ elim (confidence_of payload) [
        | none ↦ unavailable "LLM returned non-numeric confidence"
        | some x ↦ labelled label (clip x)
      ]
    ]

    unfoldable pub read_reply : ToolReply → Classified
    unfolding read_payload payload_of
    read_reply (text_only_result t stop) =
        unavailable (join "" ("LLM refused to call classify_intent: " ∷ t ∷ []))
    read_reply (tool_call_result name input raw stop) = elim (payload_of input) [
      | none ↦ crashed "no attribute 'get'"
      | some payload ↦ read_payload payload
    ]

    unfoldable pub classify :
        (String → String → List ToolDef → Outcome ToolReply) → String → Classified
    unfolding read_reply
    classify llm text =
        if is_blank text || is_blank (strip text)
        then unavailable "Empty text cannot be classified"
        else elim (llm system_prompt text (classify_tool ∷ [])) [
          | raised e ↦ unavailable (join "" ("LLM tool_call failed: " ∷ e ∷ []))
          | returned reply ↦ read_reply reply
        ]
