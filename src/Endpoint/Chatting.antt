-- ===== src/Endpoint/Chatting.antt =====
-- What a chat request does to the store, and on whose session it runs.

use food_order_system.Base.{
  ℕ, String, Bool, true, false, Option, some, ◌≡◌, ◌⊎◌, refl, inl, inr, arith, Option-cases,
}
use food_order_system.Schemas.{ChatSession}
use food_order_system.Sessions
use food_order_system.Sessions.{SessionStore, Created, created, store_full, get_or_create, write}
use food_order_system.Sessions.Ownership.{get_or_create_owned}
use food_order_system.Chat.{TurnResult, Ending, replied, capped, broken}
use food_order_system.Endpoint.{
  chat_response, stream_response, run_non_streaming, stream_generator, chat,
}
use food_order_system.Endpoint.Frames.{Says, refused, failed, reply_frames_lem}

Created-cases : (c : Created) → (c ≡ store_full) ⊎ ((r : ℕ) × (c ≡ created r))
Created-cases store_full = inl refl
Created-cases (created r) = inr (r, refl)

Ending-cases :
    (e : Ending)
    → ((t : TurnResult) × (e ≡ replied t))
      ⊎ (((m : String) × (e ≡ capped m)) ⊎ ((m : String) × (e ≡ broken m)))
Ending-cases (replied t) = inl (t, refl)
Ending-cases (capped m) = inr (inl (m, refl))
Ending-cases (broken m) = inr (inr (m, refl))

module _ {W : Type 0} (engine : String → ChatSession → W → Ending × ChatSession × W) where
  turn_agrees :
      (finish r : ℕ) (message : String) (v : ChatSession) (s : SessionStore) (w : W)
      → ((stream_generator engine finish r message v s w).1
          ≡ (run_non_streaming engine finish r message v s w).1)
        × ((stream_generator engine finish r message v s w).2
            ≡ (run_non_streaming engine finish r message v s w).2)
        × Says
            (stream_response (stream_generator engine finish r message v s w).0)
            (run_non_streaming engine finish r message v s w).0
  unfolding stream_generator run_non_streaming
  turn_agrees finish r message v s w = elim (Ending-cases (engine message v w).0) [
    | inl (t, e) ↦
        rw (e, stream_generator, run_non_streaming)
          (refl, refl, reply_frames_lem v.session_id (engine message v w).1.session_id t)
    | inr (inl (m, e)) ↦
        rw (e, stream_generator, run_non_streaming)
          (refl, refl, failed _ "AI_MAX_ITERATIONS" m refl refl)
    | inr (inr (m, e)) ↦
        rw (e, stream_generator, run_non_streaming)
          (refl, refl, failed _ "AI_TOOL_ERROR" m refl refl)
  ]

  -- A stream that is read to its end leaves the same store and the same world as an answer without one,
  -- however the turn ends, and says the same: a refusal before the turn is the same response; a reply
  -- comes as its text, its calls with their outputs and its end; an exception as one error frame.
  pub chat-stream :
      (ready : Bool) (start finish : ℕ) (uuid : String) (user : ℕ) (session_id : Option String)
      (message : String) (s : SessionStore) (w : W)
      → ((chat engine ready true start finish uuid user session_id message s w).1
          ≡ (chat engine ready false start finish uuid user session_id message s w).1)
        × ((chat engine ready true start finish uuid user session_id message s w).2
            ≡ (chat engine ready false start finish uuid user session_id message s w).2)
        × Says
            (chat engine ready true start finish uuid user session_id message s w).0
            (chat engine ready false start finish uuid user session_id message s w).0
  unfolding chat
  chat-stream false start finish uuid user session_id message s w = (refl, refl, refused _ _)
  chat-stream true start finish uuid user session_id message s w =
      let out = get_or_create start session_id uuid user s in
      elim (Created-cases out.0) [
        | inl full ↦ rw (full, chat) (refl, refl, refused _ _)
        | inr (r, made) ↦ elim (Option-cases (out.1.cell r)) [
          | inl gone ↦ rw (made, chat) (rw gone (refl, refl, refused _ _))
          | inr (v, there) ↦ rw (made, chat) (rw there (turn_agrees finish r message v out.1 w))
        ]
      ]

  -- One turn of the engine on the session object at `r`, answered with this reply and saved.
  abbrev pub Ran :
      ℕ
      → ℕ
      → String
      → ChatSession
      → SessionStore
      → W
      → String
      → TurnResult
      → SessionStore
      → W
      → Type 0
  Ran finish r message v s w name t store world =
      let out = engine message v w in
      (out.0 ≡ replied t)
      × (name ≡ out.1.session_id)
      × (store ≡ Sessions.save finish r (write r out.1 s))
      × (world ≡ out.2)

  run_non_streaming-Ran :
      (finish r : ℕ) (message : String) (v : ChatSession) (s : SessionStore) (w : W) (name : String)
      (t : TurnResult)
      → (run_non_streaming engine finish r message v s w).0 ≡ chat_response name t
      → Ran finish r message v s w name t
          (run_non_streaming engine finish r message v s w).1
          (run_non_streaming engine finish r message v s w).2
  unfolding run_non_streaming
  run_non_streaming-Ran finish r message v s w name t h =
      elim (Ending-cases (engine message v w).0) [
        | inl (u, e) ↦
            let same = rw (e, run_non_streaming) at h in
            rw (e, run_non_streaming) (ground (arith, same), ground (arith, same), refl, refl)
        | inr (inl (m, e)) ↦
            absurd (let other = rw (e, run_non_streaming) at h in ground (arith, other))
        | inr (inr (m, e)) ↦
            absurd (let other = rw (e, run_non_streaming) at h in ground (arith, other))
      ]

  -- A request that is answered with a reply ran the engine once, on the session that the store has for
  -- this client, which is the user's own. The reply and the identifier are what this turn left, and the
  -- store and the world are as this turn and its save leave them.
  pub chat-Owned :
      (ready : Bool) (start finish : ℕ) (uuid : String) (user : ℕ) (session_id : Option String)
      (message : String) (s : SessionStore) (w : W) (name : String) (t : TurnResult)
      → (chat engine ready false start finish uuid user session_id message s w).0
        ≡ chat_response name t
      → let found = get_or_create start session_id uuid user s in
        (r : ℕ) × (v : ChatSession) × (found.0 ≡ created r)
        × (found.1.cell r ≡ some v)
        × (v.user_id ≡ user)
        × Ran finish r message v found.1 w name t
            (chat engine ready false start finish uuid user session_id message s w).1
            (chat engine ready false start finish uuid user session_id message s w).2
  unfolding chat
  chat-Owned false start finish uuid user session_id message s w name t h = absurd (ground arith)
  chat-Owned true start finish uuid user session_id message s w name t h =
      let out = get_or_create start session_id uuid user s in
      elim (Created-cases out.0) [
        | inl full ↦ absurd (ground arith)
        | inr (r, made) ↦
            let (v, there, mine, used) = get_or_create_owned start session_id uuid user r s made in
            let run : (run_non_streaming engine finish r message v out.1 w).0
                ≡ chat_response name t =
              ground arith in
            (
              r,
              v,
              made,
              there,
              mine,
              rw (made, chat)
                  (rw there (run_non_streaming-Ran finish r message v out.1 w name t run)),
            )
      ]
