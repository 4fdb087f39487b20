-- ===== src/Chat/Tools/Dispatch.antt =====
-- The tools that the model is shown are those that are handled, and a service is only ever called
-- with arguments that passed the tool's checks.
use food_order_system.Base.{
  String, string_eq, false, some, ◌≡◌, ◌⊎◌, refl, ◌∙◌, inl, inr, arith, any, ◌==◌, is_blank,
  Option-cases, Bool-cases,
}
use food_order_system.Base.Int.{ℤ, is_non_positive}
use food_order_system.Base.Json.{Json, Fields, get_field}
use food_order_system.Llm.{ToolDef}
use food_order_system.Chat.{is_some}
use food_order_system.Chat.Tools.{
  Services, Tool, Handled, search_menu, create_order_draft, check_order_status, get_recommendations,
  all_tools, handler_of, handle, handle_search, handle_draft, handle_status, text_arg, number_of,
  fields_of, execute, dispatch, surface, result, tool_error, other_error,
}
use food_order_system.Chat.Tools.Schemas.{
  search_menu_tool, create_order_draft_tool, check_order_status_tool, get_recommendations_tool,
}

-- A tool name has a handler exactly when the model is shown a tool of that name.
pub handler_of-any :
    (name : String)
    → is_some (handler_of name) ≡ any (λ (t : ToolDef). name == t.tool_name) all_tools
unfolding handler_of is_some any search_menu_tool create_order_draft_tool check_order_status_tool
    get_recommendations_tool
handler_of-any name = ground arith

-- What the arguments of a tool must satisfy.
abbrev pub Accepted : Tool → Fields → Type 0
Accepted search_menu args = (q : String) × (text_arg args "query" ≡ some q) × (is_blank q ≡ false)
Accepted create_order_draft args =
    (q : String) × (text_arg args "text" ≡ some q) × (is_blank q ≡ false)
Accepted check_order_status args =
    (v : Json) × (n : ℤ) × (get_field args "order_id" ≡ some v)
    × (number_of v ≡ some n)
    × (is_non_positive n ≡ false)
Accepted get_recommendations args = Unit

module _ {W : Type 0} (s : Services W) (w : W) where
  search-checks : (args : Fields) → ((handle_search s w args).1 ≡ w) ⊎ Accepted search_menu args
  unfolding handle_search
  search-checks args = elim (Option-cases (text_arg args "query")) [
    | inl e ↦ inl (rw (e, handle_search))
    | inr (q, e) ↦ elim (Bool-cases (is_blank q)) [
      | inl blank ↦ inl (ground arith)
      | inr full ↦ inr (q, e, full)
    ]
  ]

  draft-checks :
      (args : Fields) → ((handle_draft s w args).1 ≡ w) ⊎ Accepted create_order_draft args
  unfolding handle_draft
  draft-checks args = elim (Option-cases (text_arg args "text")) [
    | inl e ↦ inl (rw (e, handle_draft))
    | inr (q, e) ↦ elim (Bool-cases (is_blank q)) [
      | inl blank ↦ inl (ground arith)
      | inr full ↦ inr (q, e, full)
    ]
  ]

  status-checks :
      (args : Fields) → ((handle_status s w args).1 ≡ w) ⊎ Accepted check_order_status args
  unfolding handle_status
  status-checks args = elim (Option-cases (get_field args "order_id")) [
    | inl e ↦ inl (rw (e, handle_status))
    | inr (v, e) ↦ elim (Option-cases (number_of v)) [
      | inl f ↦ inl (ground arith)
      | inr (n, f) ↦ elim (Bool-cases (is_non_positive n)) [
        | inl bad ↦ inl (ground arith)
        | inr good ↦ inr (v, n, e, f, good)
      ]
    ]
  ]

  handle-checks : (t : Tool) (args : Fields) → ((handle s t w args).1 ≡ w) ⊎ Accepted t args
  unfolding handle
  handle-checks search_menu args = search-checks args
  handle-checks create_order_draft args = draft-checks args
  handle-checks check_order_status args = status-checks args
  handle-checks get_recommendations args = inr tt

  dispatch-world :
      (name : String) (t : Tool) (args : Fields)
      → (dispatch s w name t (some args)).1 ≡ (handle s t w args).1
  unfolding dispatch
  dispatch-world name t args = surface-world (handle s t w args)
    where
      surface-world : (h : Handled × W) → (surface s name h).1 ≡ h.1
      surface-world (result v, w') = refl
      surface-world (tool_error e, w') = refl
      surface-world (other_error e, w') = refl

  -- A call with an unknown tool, with arguments that are no dictionary, or with arguments that fail
  -- the tool's check reaches no service: the world is as before.
  pub execute-checks :
      (name : String) (input : Json)
      → ((execute s w name input).1 ≡ w)
        ⊎ ((t : Tool) × (args : Fields) × (handler_of name ≡ some t)
            × (fields_of input ≡ some args)
            × Accepted t args)
  unfolding execute
  execute-checks name input = elim (Option-cases (handler_of name)) [
    | inl e ↦ inl (rw (e, execute))
    | inr (t, e) ↦ elim (Option-cases (fields_of input)) [
      | inl f ↦ inl (rw (e, execute) (unfold dispatch surface in rw (f, dispatch)))
      | inr (args, f) ↦ elim (handle-checks t args) [
        | inl same ↦ inl (rw (e, execute) (rw f (dispatch-world name t args ∙ same)))
        | inr good ↦ inr (t, args, e, f, good)
      ]
    ]
  ]
