-- ===== src/Endpoint/Frames.antt =====
-- What a stream of ai_service/src/fos_ai/routers/chat.py says, next to an answer without one.
use mathlib.Core.List.{append-nil}
use food_order_system.Base.{
  ℕ, String, true, Option, List, [], ◌∷◌, ◌++◌, ◌≡◌, refl, ap, sym, ◌∙◌, inl, inr, arith, map, join,
  is_blank, if◌then◌else◌, Bool-cases,
}
use food_order_system.Base.Json.{Json}
use food_order_system.Schemas.{ToolCallRecord}
use food_order_system.Chat.{TurnResult}
use food_order_system.Endpoint.{
  Frame, session_frame, tool_call_frame, tool_result_frame, delta_frame, done_frame, error_frame,
  Response, http_error, chat_response, stream_response, tool_frames,
}

-- What the frames of a stream say.
abbrev pub deltas_in : List Frame → List String
deltas_in [] = []
deltas_in (delta_frame t ∷ fs) = t ∷ deltas_in fs
deltas_in (session_frame i ∷ fs) = deltas_in fs
deltas_in (tool_call_frame n i ∷ fs) = deltas_in fs
deltas_in (tool_result_frame n o e ∷ fs) = deltas_in fs
deltas_in (done_frame r ∷ fs) = deltas_in fs
deltas_in (error_frame c m ∷ fs) = deltas_in fs

abbrev pub calls_in : List Frame → List (String × Json)
calls_in [] = []
calls_in (tool_call_frame n i ∷ fs) = (n, i) ∷ calls_in fs
calls_in (delta_frame t ∷ fs) = calls_in fs
calls_in (session_frame i ∷ fs) = calls_in fs
calls_in (tool_result_frame n o e ∷ fs) = calls_in fs
calls_in (done_frame r ∷ fs) = calls_in fs
calls_in (error_frame c m ∷ fs) = calls_in fs

abbrev pub outputs_in : List Frame → List (String × Json × Option String)
outputs_in [] = []
outputs_in (tool_result_frame n o e ∷ fs) = (n, o, e) ∷ outputs_in fs
outputs_in (delta_frame t ∷ fs) = outputs_in fs
outputs_in (session_frame i ∷ fs) = outputs_in fs
outputs_in (tool_call_frame n i ∷ fs) = outputs_in fs
outputs_in (done_frame r ∷ fs) = outputs_in fs
outputs_in (error_frame c m ∷ fs) = outputs_in fs

abbrev pub dones_in : List Frame → List String
dones_in [] = []
dones_in (done_frame r ∷ fs) = r ∷ dones_in fs
dones_in (delta_frame t ∷ fs) = dones_in fs
dones_in (session_frame i ∷ fs) = dones_in fs
dones_in (tool_call_frame n i ∷ fs) = dones_in fs
dones_in (tool_result_frame n o e ∷ fs) = dones_in fs
dones_in (error_frame c m ∷ fs) = dones_in fs

abbrev pub errors_in : List Frame → List (String × String)
errors_in [] = []
errors_in (error_frame c m ∷ fs) = (c, m) ∷ errors_in fs
errors_in (delta_frame t ∷ fs) = errors_in fs
errors_in (session_frame i ∷ fs) = errors_in fs
errors_in (tool_call_frame n i ∷ fs) = errors_in fs
errors_in (tool_result_frame n o e ∷ fs) = errors_in fs
errors_in (done_frame r ∷ fs) = errors_in fs

-- A stream says what an answer without one says: the same refusal before the turn; or the reply, its
-- calls with their outputs and its end; or the one error of the turn, which the status 502 carries.
pub data Says : Response → Response → Type 0 where
  refused :
      (status : ℕ) (detail : String) → Says (http_error status detail) (http_error status detail)
  failed :
      (fs : List Frame) (code message : String)
      → errors_in fs ≡ (code, message) ∷ []
      → dones_in fs ≡ []
      → Says (stream_response fs) (http_error 502 (join "" (code ∷ ": " ∷ message ∷ [])))
  told :
      (fs : List Frame) (name : String) (t : TurnResult)
      → join "" (deltas_in fs) ≡ t.reply
      → calls_in fs ≡ map (λ c. (c.tool, c.tool_input)) t.tool_calls
      → outputs_in fs ≡ map (λ c. (c.tool, c.output, c.error)) t.tool_calls
      → dones_in fs ≡ t.finish_reason ∷ []
      → errors_in fs ≡ []
      → Says (stream_response fs) (chat_response name t)

is_blank-eq : (s : String) → is_blank s ≡ true → s ≡ ""
unfolding is_blank
is_blank-eq String.[] h = refl
is_blank-eq (String.◌∷◌ c s) h = absurd (ground arith)

-- The frames of the calls, and after them others.
tool_frames_lem :
    (cs : List ToolCallRecord) (fs : List Frame)
    → (deltas_in (tool_frames cs ++ fs) ≡ deltas_in fs)
      × (calls_in (tool_frames cs ++ fs) ≡ map (λ c. (c.tool, c.tool_input)) cs ++ calls_in fs)
      × (outputs_in (tool_frames cs ++ fs)
          ≡ map (λ c. (c.tool, c.output, c.error)) cs ++ outputs_in fs)
      × (dones_in (tool_frames cs ++ fs) ≡ dones_in fs)
      × (errors_in (tool_frames cs ++ fs) ≡ errors_in fs)
unfolding tool_frames
tool_frames_lem [] fs = (refl, refl, refl, refl, refl)
tool_frames_lem (c ∷ cs) fs =
    let (a, b, d, e, f) = tool_frames_lem cs fs in
    (a, ap (λ l. (c.tool, c.tool_input) ∷ l) b, ap (λ l. (c.tool, c.output, c.error) ∷ l) d, e, f)

told_after_calls :
    (id name : String) (t : TurnResult) (tail : List Frame)
    → join "" (deltas_in tail) ≡ t.reply
    → calls_in tail ≡ []
    → outputs_in tail ≡ []
    → dones_in tail ≡ t.finish_reason ∷ []
    → errors_in tail ≡ []
    → Says
        (stream_response (session_frame id ∷ tool_frames t.tool_calls ++ tail))
        (chat_response name t)
told_after_calls id name t tail reply calls outputs dones errors =
    let (a, b, d, f, g) = tool_frames_lem t.tool_calls tail in
    told (session_frame id ∷ tool_frames t.tool_calls ++ tail) name t (ap (join "") a ∙ reply)
      (b ∙ ap (λ l. map (λ c. (c.tool, c.tool_input)) t.tool_calls ++ l) calls ∙ append-nil _)
      (d
        ∙ ap (λ l. map (λ c. (c.tool, c.output, c.error)) t.tool_calls ++ l) outputs
        ∙ append-nil _)
      (f ∙ dones) (g ∙ errors)

pub reply_frames_lem :
    (id name : String) (t : TurnResult)
    → Says
        (stream_response (
          session_frame id ∷ tool_frames t.tool_calls
          ++ ((if is_blank t.reply then [] else delta_frame t.reply ∷ [])
              ++ done_frame t.finish_reason ∷ [])))
        (chat_response name t)
unfolding join
reply_frames_lem id name t = elim (Bool-cases (is_blank t.reply)) [
  | inl e ↦ rw e (
      told_after_calls id name t (done_frame t.finish_reason ∷ []) (sym (is_blank-eq t.reply e))
        refl refl refl refl)
  | inr e ↦ rw e (
      told_after_calls id name t (delta_frame t.reply ∷ done_frame t.finish_reason ∷ []) refl refl
        refl refl refl)
]
