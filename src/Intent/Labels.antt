-- ===== src/Intent/Labels.antt =====
-- What the classifier may answer.
use food_order_system.Base.{
  String, string_eq, true, Option, none, some, List, [], ◌∷◌, ◌≡◌, inl, inr, arith, contains,
  Option-cases, Bool-cases,
}
use food_order_system.Base.Float.{Float}
use food_order_system.Base.Json.{Json, Fields}
use food_order_system.Base.Outcome.{Outcome, Outcome-cases}
use food_order_system.Llm.{ToolReply, tool_call_result, text_only_result, ToolDef}
use food_order_system.Intent.{
  intent_labels, system_prompt, label_of, known, payload_of, labelled, clip, confidence_of,
  read_payload, read_reply, classify,
}
use food_order_system.Intent.Schema.{classify_tool}

known-contains :
    (l : Option String) (label : String)
    → known l ≡ some label
    → contains intent_labels label ≡ true
unfolding known
known-contains none label h = absurd (ground arith)
known-contains (some l) label h = elim (Bool-cases (contains intent_labels l)) [
  | inl e ↦
      let same : l ≡ label = (let h' : some l ≡ some label = rw e at h in ground arith) in
      rw (← same) e
  | inr e ↦ absurd (let h' : none ≡ some label = rw e at h in ground arith)
]

module _ (fl : Float) (one : fl.F) (zero_le_one : fl.leb_f fl.zero_f one ≡ true)
    (to_float : Json → Option fl.F) where
  -- One of the labels, with a confidence between zero and one.
  abbrev pub IsIntent : String → fl.F → Type 0
  IsIntent label x =
      (contains intent_labels label ≡ true)
      × (fl.leb_f fl.zero_f x ≡ true)
      × (fl.leb_f x one ≡ true)

  clip_bounds :
      (x : fl.F)
      → (fl.leb_f fl.zero_f (clip fl one x) ≡ true) × (fl.leb_f (clip fl one x) one ≡ true)
  unfolding clip
  clip_bounds x = ground (
    arith,
    zero_le_one,
    fl.leb_total fl.zero_f fl.zero_f,
    fl.leb_total one one,
    fl.leb_total x one,
    fl.leb_total fl.zero_f x,
  )

  read_payload-IsIntent :
      (payload : Fields) (label : String) (x : fl.F)
      → read_payload fl one to_float payload ≡ labelled label x
      → IsIntent label x
  unfolding read_payload
  read_payload-IsIntent payload label x h = elim (Option-cases (known (label_of payload))) [
    | inl e ↦ absurd (ground arith)
    | inr (l, e) ↦ elim (Option-cases (confidence_of fl one to_float payload)) [
      | inl f ↦ absurd (ground arith)
      | inr (y, f) ↦
          let name : l ≡ label = ground arith in
          let conf : clip fl one y ≡ x = ground arith in
          rw (← name, ← conf)
            (known-contains (label_of payload) l e, (clip_bounds y).0, (clip_bounds y).1)
    ]
  ]

  read_reply-IsIntent :
      (reply : ToolReply) (label : String) (x : fl.F)
      → read_reply fl one to_float reply ≡ labelled label x
      → IsIntent label x
  unfolding read_reply
  read_reply-IsIntent (text_only_result t stop) label x h = absurd (ground arith)
  read_reply-IsIntent (tool_call_result name input raw stop) label x h =
      elim (Option-cases (payload_of input)) [
        | inl e ↦ absurd (ground arith)
        | inr (payload, e) ↦ read_payload-IsIntent payload label x (ground arith)
      ]

  -- Whatever the model replies, a label that the classifier answers is one of the nine, with a
  -- confidence between zero and one. It is assumed that zero is at most one.
  pub classify-IsIntent :
      (llm : String → String → List ToolDef → Outcome ToolReply) (text label : String) (x : fl.F)
      → classify fl one to_float llm text ≡ labelled label x
      → IsIntent label x
  unfolding classify
  classify-IsIntent llm text label x h =
      elim (Outcome-cases (llm system_prompt text (classify_tool ∷ []))) [
        | inl (e, failed) ↦ absurd (ground arith)
        | inr (reply, done) ↦ read_reply-IsIntent reply label x (ground arith)
      ]
