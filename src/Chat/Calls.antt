-- ===== src/Chat/Calls.antt =====
-- The loop over the tool calls of a reply: every call is answered, or the record of one is refused.
use food_order_system.Base.{
  ℕ, ◌≡◌, refl, ap, sym, ◌∙◌, String, Option, none, some, List, [], ◌∷◌, arith, In, Bool-cases, ◌⊎◌,
  inl, inr, false,
}
use food_order_system.Base.Json.{Json, obj, end}
use food_order_system.Base.Outcome.{Outcome, returned, raised, Outcome-cases}
use food_order_system.Schemas.{Block, ToolCallRecord}
use food_order_system.Llm.{MessagesResult, ToolUse, ToolDef}
use food_order_system.Chat.{
  Request, exec_single, payload_of, result_block, exec_all, is_dict, input_of, Texts,
}
use food_order_system.Chat.Rounds.{shown, Answers, no_more, answer, Unfit}

module _ {W : Type 0} (llm : W → Request → Outcome MessagesResult × W)
    (execute : W → String → Json → Outcome Json × W) (now : W → ℕ) (py : Texts) (system : String)
    (tools : List ToolDef) where
  payload-shown :
      (output : Json) (error : Option String)
      → payload_of llm execute now py system tools output error ≡ shown py.dumps output error
  unfolding payload_of
  payload-shown output none = refl
  payload-shown output (some e) = refl

  exec_single-output :
      (w : W) (name : String) (input : Json)
      → ((exec_single llm execute now py system tools w name input).0 ≡ obj end)
        ⊎ ((o : Json) × ((execute w name input).0 ≡ returned o)
            × ((exec_single llm execute now py system tools w name input).0 ≡ o))
  unfolding exec_single
  exec_single-output w name input = elim (Outcome-cases (execute w name input).0) [
    | inl (e, q) ↦ inl (rw (q, exec_single) refl)
    | inr (o, q) ↦ inr (o, q, rw (q, exec_single) refl)
  ]

  exec_single-fit :
      (t : ToolUse) (w : W)
      → is_dict (exec_single llm execute now py system tools w t.name (input_of t)).0 ≡ false
      → Unfit execute t
  unfolding is_dict
  exec_single-fit t w h = elim (exec_single-output w t.name (input_of t)) [
    | inl e ↦ absurd (let p = sym (ap is_dict e) ∙ h in ground (arith, p))
    | inr (o, q, e) ↦ inr (w, o, q, sym (ap is_dict e) ∙ h)
  ]

  -- What the loop over the calls comes to.
  abbrev pub IsDone : List ToolUse → Outcome (List Block × List ToolCallRecord) → Type 0
  IsDone ts out = elim out as (λ o. Type 0) [
    | raised e ↦ (t : ToolUse) × In t ts × Unfit execute t
    | returned (blocks, new) ↦ Answers py.dumps ts blocks new
  ]

  pub exec_all-IsDone :
      (ts : List ToolUse) (w : W) → IsDone ts (exec_all llm execute now py system tools ts w).0
  unfolding exec_all result_block
  exec_all-IsDone [] w = no_more
  exec_all-IsDone (t ∷ ts) w =
      let out = exec_single llm execute now py system tools w t.name (input_of t) in
      let ih = exec_all-IsDone ts out.2 in
      elim (Bool-cases (is_dict (input_of t))) [
        | inr no_input ↦ rw (no_input, exec_all) (t, inl refl, inl no_input)
        | inl has_input ↦ elim (Bool-cases (is_dict out.0)) [
          | inr no_output ↦
              rw (has_input, no_output, exec_all) (t, inl refl, exec_single-fit t w no_output)
          | inl has_output ↦
              elim (Outcome-cases (exec_all llm execute now py system tools ts out.2).0) [
                | inl (e, q) ↦
                    let (u, there, unfit) = rw q at ih in
                    rw (has_input, has_output, q, exec_all) (u, inr there, unfit)
                | inr (done, q) ↦
                    rw (has_input, has_output, q, exec_all)
                      (answer t _ _ refl (payload-shown (out.0) (out.1)) (rw q at ih))
              ]
        ]
      ]
