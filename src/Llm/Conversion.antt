-- ===== src/Llm/Conversion.antt =====
-- The conversion keeps the protocol of tool calls.
use food_order_system.Base.{
  join, String, true, List, [], ◌∷◌, ◌++◌, ◌≡◌, refl, ap, sym, ◌∙◌, arith, is_empty, is_blank,
  Bool-cases, inl, inr,
}
use mathlib.Core.Path.{ap₂}
use mathlib.Core.List.{append_assoc, append-nil}
use food_order_system.Base.Json.{Json}
use food_order_system.Schemas.{
  Part, part_text, part_other, ResultContent, no_content, whole_text, parts, Block, text, tool_use,
  tool_result, Role, user, assistant,
}
use food_order_system.Llm.{texts}
use food_order_system.Llm.OpenAi.{
  Content, plain, blocks, Call, Message, system_message, text_message, tool_message, part_texts,
  result_text, assistant_message, results_of, calls_of, user_messages, assistant_messages,
  message_to_openai, history_to_openai, messages_to_openai,
}

abbrev pub ids : List Call → List String
ids [] = []
ids (c ∷ cs) = c.call_id ∷ ids cs

-- The identifiers of the calls that a list of messages makes.
abbrev pub called : List Message → List String
called [] = []
called (assistant_message t cs ∷ ms) = ids cs ++ called ms
called (system_message t ∷ ms) = called ms
called (text_message r t ∷ ms) = called ms
called (tool_message i p ∷ ms) = called ms

-- The answers in it, each with the identifier of its call.
abbrev pub answered : List Message → List (String × String)
answered [] = []
answered (tool_message i p ∷ ms) = (i, p) ∷ answered ms
answered (assistant_message t cs ∷ ms) = answered ms
answered (system_message t ∷ ms) = answered ms
answered (text_message r t ∷ ms) = answered ms

-- What a tool result says: nothing, its text, or the texts in its list, one to a line.
abbrev pub said_in : List Part → List String
said_in [] = []
said_in (part_text t ∷ ps) = t ∷ said_in ps
said_in (part_other ∷ ps) = said_in ps

abbrev pub said : ResultContent → String
said no_content = ""
said (whole_text t) = t
said (parts ps) = join "\n" (said_in ps)

-- The same of blocks.
abbrev pub use_ids : List Block → List String
use_ids [] = []
use_ids (tool_use i n v ∷ bs) = i ∷ use_ids bs
use_ids (text t ∷ bs) = use_ids bs
use_ids (tool_result i p e ∷ bs) = use_ids bs

abbrev pub result_pairs : List Block → List (String × String)
result_pairs [] = []
result_pairs (tool_result i p e ∷ bs) = (i, said p) ∷ result_pairs bs
result_pairs (text t ∷ bs) = result_pairs bs
result_pairs (tool_use i n v ∷ bs) = result_pairs bs

-- A history's calls are those of its assistant turns, its answers those of its user turns.
abbrev pub history_calls : List (Role × Content) → List String
history_calls [] = []
history_calls ((assistant, blocks bs) ∷ ms) = use_ids bs ++ history_calls ms
history_calls ((assistant, plain t) ∷ ms) = history_calls ms
history_calls ((user, c) ∷ ms) = history_calls ms

abbrev pub history_answers : List (Role × Content) → List (String × String)
history_answers [] = []
history_answers ((user, blocks bs) ∷ ms) = result_pairs bs ++ history_answers ms
history_answers ((user, plain t) ∷ ms) = history_answers ms
history_answers ((assistant, c) ∷ ms) = history_answers ms

called-append : (xs ys : List Message) → called (xs ++ ys) ≡ called xs ++ called ys
called-append [] ys = refl
called-append (assistant_message t cs ∷ xs) ys =
    ap (λ l. ids cs ++ l) (called-append xs ys)
    ∙ sym (append_assoc (ids cs) (called xs) (called ys))
called-append (system_message t ∷ xs) ys = called-append xs ys
called-append (text_message r t ∷ xs) ys = called-append xs ys
called-append (tool_message i p ∷ xs) ys = called-append xs ys

answered-append : (xs ys : List Message) → answered (xs ++ ys) ≡ answered xs ++ answered ys
answered-append [] ys = refl
answered-append (tool_message i p ∷ xs) ys = ap (λ l. (i, p) ∷ l) (answered-append xs ys)
answered-append (assistant_message t cs ∷ xs) ys = answered-append xs ys
answered-append (system_message t ∷ xs) ys = answered-append xs ys
answered-append (text_message r t ∷ xs) ys = answered-append xs ys

part_texts-said : (ps : List Part) → part_texts ps ≡ said_in ps
unfolding part_texts
part_texts-said [] = refl
part_texts-said (part_text t ∷ ps) = ap (λ l. t ∷ l) (part_texts-said ps)
part_texts-said (part_other ∷ ps) = part_texts-said ps

result_text-said : (p : ResultContent) → result_text p ≡ said p
unfolding result_text
result_text-said no_content = refl
result_text-said (whole_text t) = refl
result_text-said (parts ps) = ap (join "\n") (part_texts-said ps)

called-results : (bs : List Block) → called (results_of bs) ≡ []
unfolding results_of
called-results [] = refl
called-results (text t ∷ bs) = called-results bs
called-results (tool_use i n v ∷ bs) = called-results bs
called-results (tool_result i p e ∷ bs) = called-results bs

answered-results : (bs : List Block) → answered (results_of bs) ≡ result_pairs bs
unfolding results_of
answered-results [] = refl
answered-results (text t ∷ bs) = answered-results bs
answered-results (tool_use i n v ∷ bs) = answered-results bs
answered-results (tool_result i p e ∷ bs) =
    ap₂ (λ t l. (i, t) ∷ l) (result_text-said p) (answered-results bs)

user_messages-keep :
    (bs : List Block)
    → (called (user_messages bs) ≡ []) × (answered (user_messages bs) ≡ result_pairs bs)
unfolding user_messages
user_messages-keep bs = elim (Bool-cases (is_empty (texts bs))) [
  | inl e ↦
      rw (e, user_messages)
        (
          ap called (append-nil (results_of bs)) ∙ called-results bs,
          ap answered (append-nil (results_of bs)) ∙ answered-results bs,
        )
  | inr e ↦
      rw (e, user_messages)
        (
          called-append (results_of bs) _ ∙ ap (λ l. l ++ []) (called-results bs),
          answered-append (results_of bs) _
              ∙ ap (λ l. l ++ []) (answered-results bs)
              ∙ append-nil (result_pairs bs),
        )
]

no_ids : (cs : List Call) → is_empty cs ≡ true → [] ≡ ids cs
no_ids [] h = refl
no_ids (c ∷ cs) h = absurd (ground arith)

module _ (dumps : Json → String) where
  ids-calls : (bs : List Block) → ids (calls_of dumps bs) ≡ use_ids bs
  unfolding calls_of
  ids-calls [] = refl
  ids-calls (text t ∷ bs) = ids-calls bs
  ids-calls (tool_use i n v ∷ bs) = ap (λ l. i ∷ l) (ids-calls bs)
  ids-calls (tool_result i p e ∷ bs) = ids-calls bs

  assistant_messages-keep :
      (bs : List Block)
      → (called (assistant_messages dumps bs) ≡ use_ids bs)
        × (answered (assistant_messages dumps bs) ≡ [])
  unfolding assistant_messages
  assistant_messages-keep bs =
      let cs = calls_of dumps bs in
      elim (Bool-cases (is_empty (texts bs))) [
        | inr e ↦ rw (e, assistant_messages) (append-nil (ids cs) ∙ ids-calls bs, refl)
        | inl e ↦ elim (Bool-cases (is_empty cs)) [
          | inl none_called ↦
              rw (e, none_called, assistant_messages) (no_ids cs none_called ∙ ids-calls bs, refl)
          | inr some_called ↦
              rw (e, some_called, assistant_messages) (append-nil (ids cs) ∙ ids-calls bs, refl)
        ]
      ]

  abbrev Keeps : List (Role × Content) → List Message → Type 0
  Keeps ms out = (called out ≡ history_calls ms) × (answered out ≡ history_answers ms)

  joined :
      (a b : List Message) (calls calls' : List String) (answers answers' : List (String × String))
      → (called a ≡ calls) × (answered a ≡ answers)
      → (called b ≡ calls') × (answered b ≡ answers')
      → (called (a ++ b) ≡ calls ++ calls') × (answered (a ++ b) ≡ answers ++ answers')
  joined a b calls calls' answers answers' p q = (
    called-append a b ∙ ap₂ (λ x y. x ++ y) p.0 q.0,
    answered-append a b ∙ ap₂ (λ x y. x ++ y) p.1 q.1,
  )

  history-Keeps : (ms : List (Role × Content)) → Keeps ms (history_to_openai dumps ms)
  unfolding history_to_openai message_to_openai
  history-Keeps [] = (refl, refl)
  history-Keeps ((user, plain t) ∷ ms) = history-Keeps ms
  history-Keeps ((assistant, plain t) ∷ ms) = history-Keeps ms
  history-Keeps ((user, blocks bs) ∷ ms) =
      joined (user_messages bs) (history_to_openai dumps ms) [] (history_calls ms) (result_pairs bs)
        (history_answers ms) (user_messages-keep bs) (history-Keeps ms)
  history-Keeps ((assistant, blocks bs) ∷ ms) =
      joined (assistant_messages dumps bs) (history_to_openai dumps ms) (use_ids bs)
        (history_calls ms) [] (history_answers ms) (assistant_messages-keep bs) (history-Keeps ms)

  -- Converting a history for the other provider keeps every tool call and every answer, in order:
  -- the calls by their identifiers, the answers with the identifier and the payload.
  pub messages_to_openai-keeps :
      (system : String) (ms : List (Role × Content))
      → (called (messages_to_openai dumps system ms) ≡ history_calls ms)
        × (answered (messages_to_openai dumps system ms) ≡ history_answers ms)
  unfolding messages_to_openai
  messages_to_openai-keeps system ms = elim (Bool-cases (is_blank system)) [
    | inl e ↦ rw (e, messages_to_openai) (history-Keeps ms)
    | inr e ↦ rw (e, messages_to_openai) (history-Keeps ms)
  ]
