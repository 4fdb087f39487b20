-- ===== src/Endpoint.antt =====
-- ai_service/src/fos_ai/routers/chat.py: `POST /ai/chat`, with and without a stream. `engine` is
-- `ChatEngine.run` with its tools and its model; it mutates the session object of the store.
pub mod Frames
pub mod Chatting
mod Tests
use food_order_system.Base.{
  ℕ, String, Bool, true, false, Option, none, some, List, [], ◌∷◌, ◌++◌, if◌then◌else◌, is_blank,
  join,
}
use food_order_system.Base.Json.{Json}
use food_order_system.Schemas.{ChatSession, ToolCallRecord}
use food_order_system.Sessions.{SessionStore, created, store_full, get_or_create, write}
use food_order_system.Sessions
use food_order_system.Chat.{TurnResult, Ending, replied, capped, broken}

-- The frames of the event stream.
pub data Frame : Type 0 where
  session_frame : (session_id : String) → Frame
  tool_call_frame : (tool : String) → (input : Json) → Frame
  tool_result_frame : (tool : String) → (output : Json) → (error : Option String) → Frame
  delta_frame : String → Frame
  done_frame : (finish_reason : String) → Frame
  error_frame : (code message : String) → Frame

pub data Response : Type 0 where
  http_error : (status : ℕ) → (detail : String) → Response
  chat_response : (session_id : String) → TurnResult → Response
  stream_response : List Frame → Response

unfoldable pub tool_frames : List ToolCallRecord → List Frame
tool_frames [] = []
tool_frames (tc ∷ tcs) =
    tool_call_frame tc.tool tc.tool_input
    ∷ tool_result_frame tc.tool tc.output tc.error
    ∷ tool_frames tcs

module _ {W : Type 0} (engine : String → ChatSession → W → Ending × ChatSession × W) where
  -- `_run_non_streaming`, on the session object at `r`: the engine mutates the object, and only a turn
  -- that ends with a reply is saved.
  unfoldable pub run_non_streaming :
      ℕ → ℕ → String → ChatSession → SessionStore → W → Response × SessionStore × W
  run_non_streaming finish r user_text v s w =
      let (ending, v', w') = engine user_text v w in
      elim ending [
        | replied t ↦ (chat_response v'.session_id t, Sessions.save finish r (write r v' s), w')
        | capped e ↦
            (http_error 502 (join "" ("AI_MAX_ITERATIONS" ∷ ": " ∷ e ∷ [])), write r v' s, w')
        | broken e ↦ (http_error 502 (join "" ("AI_TOOL_ERROR" ∷ ": " ∷ e ∷ [])), write r v' s, w')
      ]

  -- `_stream_generator`, read to its end: the frames in order. The first is sent before the turn, and
  -- the session is saved before the last.
  unfoldable pub stream_generator :
      ℕ → ℕ → String → ChatSession → SessionStore → W → List Frame × SessionStore × W
  unfolding tool_frames
  stream_generator finish r user_text v s w =
      let first = session_frame v.session_id in
      let (ending, v', w') = engine user_text v w in
      elim ending [
        | capped e ↦ (first ∷ error_frame "AI_MAX_ITERATIONS" e ∷ [], write r v' s, w')
        | broken e ↦ (first ∷ error_frame "AI_TOOL_ERROR" e ∷ [], write r v' s, w')
        | replied t ↦ (
          first ∷ tool_frames t.tool_calls
              ++ ((if is_blank t.reply then [] else delta_frame t.reply ∷ [])
                  ++ done_frame t.finish_reason ∷ []),
          Sessions.save finish r (write r v' s),
          w',
        )
      ]

  -- `start` and `finish` are the clock when the request comes in and when the turn has ended.
  unfoldable pub chat :
      Bool
      → Bool
      → ℕ
      → ℕ
      → String
      → ℕ
      → Option String
      → String
      → SessionStore
      → W
      → Response × SessionStore × W
  unfolding run_non_streaming stream_generator
  chat ready stream start finish uuid user session_id message s w =
      if ready
      then (let (made, s1) = get_or_create start session_id uuid user s in
          elim made [
            | store_full ↦ (http_error 429 "SessionStore at capacity", s1, w)
            | created r ↦ elim (s1.cell r) [
              | none ↦ (http_error 502 "no session", s1, w)
              | some v ↦
                  if stream
                  then (let (frames, s2, w2) = stream_generator finish r message v s1 w in
                      (stream_response frames, s2, w2))
                  else run_non_streaming finish r message v s1 w
            ]
          ])
      else (http_error 503 "Menu corpus not loaded yet", s, w)
