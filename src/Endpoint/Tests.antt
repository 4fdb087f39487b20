-- ===== src/Endpoint/Tests.antt =====
-- A request on an empty store: the theorems on ai_service/src/fos_ai/routers/chat.py at it.
use food_order_system.Base.{ℕ, String, true, false, none, some, [], ◌∷◌, ◌≡◌, refl}
use food_order_system.Base.Json.{obj, end}
use food_order_system.Schemas.{ChatSession, new_session}
use food_order_system.Sessions.{init, get_or_create, create, created, add, evict_expired}
use food_order_system.Chat.{TurnResult, Ending, replied}
use food_order_system.Endpoint.{chat, run_non_streaming}
use food_order_system.Endpoint.Frames.{Says}
use food_order_system.Endpoint.Chatting.{Ran, chat-stream, chat-Owned}

abbrev turn : TurnResult
turn = record {
  reply = "Roast duck.";
  tool_calls =
      record { tool = "search_menu"; tool_input = obj end; output = obj end; error = none } ∷ [];
  finish_reason = "end_turn";
  iterations = 2;
}

-- The world counts the turns.
abbrev engine : String → ChatSession → ℕ → Ending × ChatSession × ℕ
engine message v w = (replied turn, v, 1)

chat-stream_example :
    ((chat engine true true 5 6 "s1" 1 none "Any duck?" (init 10 1) 0).1
      ≡ (chat engine true false 5 6 "s1" 1 none "Any duck?" (init 10 1) 0).1)
    × ((chat engine true true 5 6 "s1" 1 none "Any duck?" (init 10 1) 0).2
        ≡ (chat engine true false 5 6 "s1" 1 none "Any duck?" (init 10 1) 0).2)
    × Says
        (chat engine true true 5 6 "s1" 1 none "Any duck?" (init 10 1) 0).0
        (chat engine true false 5 6 "s1" 1 none "Any duck?" (init 10 1) 0).0
chat-stream_example = chat-stream engine true 5 6 "s1" 1 none "Any duck?" (init 10 1) 0

chat-Owned_example :
    (r : ℕ) × (v : ChatSession) × ((get_or_create 5 none "s1" 1 (init 10 1)).0 ≡ created r)
    × ((get_or_create 5 none "s1" 1 (init 10 1)).1.cell r ≡ some v)
    × (v.user_id ≡ 1)
    × Ran engine 6 r "Any duck?" v
        (get_or_create 5 none "s1" 1 (init 10 1)).1
        0
        "s1"
        turn
        (chat engine true false 5 6 "s1" 1 none "Any duck?" (init 10 1) 0).1
        (chat engine true false 5 6 "s1" 1 none "Any duck?" (init 10 1) 0).2
unfolding chat run_non_streaming init get_or_create create add evict_expired new_session
chat-Owned_example = chat-Owned engine true 5 6 "s1" 1 none "Any duck?" (init 10 1) 0 "s1" turn refl
