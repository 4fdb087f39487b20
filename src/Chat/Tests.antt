-- ===== src/Chat/Tests.antt =====
-- A model that calls one tool and then answers: the theorems on ai_service/src/fos_ai/services/chat_engine.py and
-- chat_tools.py at it.
use food_order_system.Base.{
  refl, map, ℕ, zero, suc, ◌≤◌, ◌≡◌, ◌⊎◌, String, false, none, some, List, [], ◌∷◌, ◌++◌, length,
  string_eq, map,
}
use food_order_system.Base.Int.{pos}
use food_order_system.Base.Json.{null, str, obj, Fields, end, field, truthy}
use food_order_system.Base.Outcome.{Outcome, returned}
use food_order_system.Schemas.{text, tool_use, user, ChatMessage, ChatSession, append}
use food_order_system.Llm.{MessagesResult, tool_uses}
use food_order_system.Chat.{
  Texts, Request, Ending, capped, run, message, broken, assistant, loop, exec_all,
}
use food_order_system.Chat.Rounds.{Rounds}
use food_order_system.Chat.Protocol.{run_protocol}
use food_order_system.Chat.Tools.{
  Services, Tool, all_tools, handler_of, fields_of, execute, parsed, number,
}
use food_order_system.Chat.Tools.Dispatch.{Accepted, execute-checks}

-- The world counts the calls.
llm : ℕ → Request → Outcome MessagesResult × ℕ
llm zero r = (
  returned (record {
    content = tool_use "t1" "search_menu" (obj (field "query" (str "duck") end)) ∷ [];
    stop_reason = "tool_use";
  }),
  1,
)
llm (suc n) r =
    (returned (record { content = text "Roast duck." ∷ []; stop_reason = "end_turn" }), suc (suc n))

services : Services ℕ
services = record {
  search = λ w q n. (returned [], suc w);
  parse_order = λ w t h. (parsed null, suc w);
  fetch_order_status = λ w n. (returned none, suc w);
  recommend = λ w n. (returned ("popularity_fallback", false, []), suc w);
  to_int = λ v. number (pos 5);
  display = λ v. "v";
}

abbrev texts : Texts
texts = record {
  dumps = λ v. "{}";
  show = λ n. "5";
  quote = λ s. s;
  invalid = λ input output. "validation error";
}

abbrev session : ChatSession
session = record {
  session_id = "s";
  user_id = 1;
  messages = [];
  created_at = 0;
  last_active_at = 0;
}

abbrev turn : Ending × ChatSession × ℕ
turn = run llm (execute services) (λ w. w) texts "Be brief." all_tools 5 "Any duck?" session 0

run_protocol_example :
    (added : List ChatMessage) × (turn.1.messages
      ≡ []
        ++ message llm
            (execute services)
            (λ w. w)
            texts
            "Be brief."
            all_tools
            user
            (text "Any duck?" ∷ [])
            0
          ∷ added)
    × Rounds (execute services) texts.dumps turn.0 [] 0 added
    × (length added ≤ 10)
    × ((last : String) → turn.0 ≡ capped last → length added ≡ 10)
    × (turn.1.session_id ≡ "s")
    × (turn.1.user_id ≡ 1)
run_protocol_example =
    run_protocol llm (execute services) (λ w. w) texts "Be brief." all_tools 5 "Any duck?" session 0

-- A model that calls a tool with a text in place of a dict.
abbrev careless : ℕ → Request → Outcome MessagesResult × ℕ
careless w r = (
  returned (record {
    content = tool_use "t1" "search_menu" (str "duck") ∷ [];
    stop_reason = "tool_use";
  }),
  w,
)

abbrev broken_turn : Ending × ChatSession × ℕ
broken_turn =
    run careless (execute services) (λ w. w) texts "Be brief." all_tools 5 "Any duck?" session 0

-- The turn ends by an exception, and the last message is the call without its answer.
call_unanswered :
    (broken_turn.0 ≡ broken "validation error")
    × (map (λ m. m.role) broken_turn.1.messages ≡ user ∷ assistant ∷ [])
unfolding run loop tool_uses exec_all truthy append
call_unanswered = (refl, refl)

execute-checks_example :
    ((execute services 0 "search_menu" (obj end)).1 ≡ 0)
    ⊎ ((t : Tool) × (args : Fields) × (handler_of "search_menu" ≡ some t)
        × (fields_of (obj end) ≡ some args)
        × Accepted t args)
execute-checks_example = execute-checks services 0 "search_menu" (obj end)
