-- ===== src/Llm/Tests.antt =====
-- A short history and a stream of two interleaved calls: the theorems on
-- ai_service/src/fos_ai/services/llm_client.py at these.
use food_order_system.Base.{
  is_blank, ltb, In, ◌↔◌, ℕ, String, nat_eq, false, none, List, [], ◌∷◌, ◌++◌, map, ◌≡◌, select,
  is_empty, join, if◌then◌else◌,
}
use food_order_system.Base.Json.{null}
use food_order_system.Schemas.{
  parts as listed, part_text, text, tool_use, tool_result, Role, user, assistant,
}
use food_order_system.Llm.{texts, tool_uses}
use food_order_system.Llm.OpenAi.{
  Content, plain, blocks, Delta, frag_of, accumulate, messages_to_openai,
}
use food_order_system.Llm.Providers.{Chunk, final_content}
use food_order_system.Llm.Conversion.{called, answered, messages_to_openai-keeps}
use food_order_system.Llm.Stream.{has_args, accumulate-pieces}
use food_order_system.Llm.Fragments.{fragments}
use food_order_system.Llm.Final.{call_at, final_content_lem}
use food_order_system.Base.Sort.{IsSorted}

abbrev history : List (Role × Content)
history =
    (user, plain "duck?")
    ∷ (assistant, blocks (text "Let me look." ∷ tool_use "t1" "search_menu" null ∷ []))
    ∷ (user, blocks (tool_result "t1" (listed (part_text "{}" ∷ [])) false ∷ []))
    ∷ []

abbrev part : ℕ → String → Delta
part i args = record { index = i; delta_id = ""; delta_name = ""; delta_args = args }

abbrev parts : List Delta
parts = part 0 "{" ∷ part 1 "[" ∷ part 0 "}" ∷ []

abbrev chunks : List Chunk
chunks =
    record { content = "Hel"; tool_deltas = []; finish_reason = "" }
    ∷ record { content = "lo"; tool_deltas = parts; finish_reason = "stop" }
    ∷ []

messages_to_openai_example :
    (called (messages_to_openai (λ v. "null") "Be brief." history) ≡ "t1" ∷ [])
    × (answered (messages_to_openai (λ v. "null") "Be brief." history) ≡ ("t1", "{}") ∷ [])
unfolding join
messages_to_openai_example = messages_to_openai-keeps (λ v. "null") "Be brief." history

accumulate-pieces_example :
    (frag_of (accumulate parts []) 0).pieces
    ≡ (frag_of [] 0).pieces ++ map (λ c. c.delta_args) (select (has_args 0) parts)
accumulate-pieces_example = accumulate-pieces parts [] 0

final_content_example :
    (texts (final_content (λ s. none) chunks)
      ≡ (if is_blank (join "" ("Hel" ∷ "lo" ∷ [])) then [] else join "" ("Hel" ∷ "lo" ∷ []) ∷ []))
    × ((indices : List ℕ) × IsSorted ltb indices
        × ((i : ℕ) → In i indices ↔ (is_empty (fragments chunks i) ≡ false))
        × (tool_uses (final_content (λ s. none) chunks) ≡ map (call_at (λ s. none) chunks) indices))
final_content_example = final_content_lem (λ s. none) chunks
