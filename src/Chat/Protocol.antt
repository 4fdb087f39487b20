-- ===== src/Chat/Protocol.antt =====
-- The transcript that a turn leaves in the session, on every way that it can end.
use food_order_system.Base.{
  ℕ, zero, suc, ◌*◌, ◌≤◌, ◌≡◌, refl, sym, ◌∙◌, String, List, [], ◌∷◌, ◌++◌, arith, length, inl, inr,
}
use mathlib.Core.List.{append_assoc, append-nil}
use food_order_system.Base.Json.{Json}
use food_order_system.Base.Outcome.{Outcome, returned, raised, Outcome-cases}
use food_order_system.Schemas.{
  text, user, assistant, ChatMessage, ChatSession, append, touch, ToolCallRecord,
}
use food_order_system.Llm.{MessagesResult, ToolUse, ToolDef, tool_uses}
use food_order_system.Chat.{
  Request, Ending, capped, exec_all, Texts, Continuation, after_tools, after_reply, loop, run,
  message, say, final, request,
}
use food_order_system.Chat.Rounds.{Rounds, at_cap, at_error, at_reply, at_refusal, round}
use food_order_system.Chat.Calls.{exec_all-IsDone}

module _ {W : Type 0} (llm : W → Request → Outcome MessagesResult × W)
    (execute : W → String → Json → Outcome Json × W) (now : W → ℕ) (py : Texts) (system : String)
    (tools : List ToolDef) where
  abbrev turn : ℕ → ℕ → List ToolCallRecord → String → ChatSession → W → Ending × ChatSession × W
  turn = loop llm execute now py system tools

  -- What a loop with `left` iterations to come has done when it ends.
  pub record Ended (left n : ℕ) (records : List ToolCallRecord) (s : ChatSession)
      (out : Ending × ChatSession × W) : Type 0 where
    pub added : List ChatMessage
    pub appended : (out.1).messages ≡ s.messages ++ added
    pub same_id : (out.1).session_id ≡ s.session_id
    pub same_user : (out.1).user_id ≡ s.user_id
    pub rounds : Rounds execute py.dumps (out.0) records n added
    pub bounded : length added ≤ 2 * left
    pub cap_reached : (last : String) → out.0 ≡ capped last → length added ≡ 2 * left

  abbrev Ends : Continuation llm execute now py system tools → ℕ → ℕ → Type 0
  Ends k left n =
      (records : List ToolCallRecord) (last : String) (s : ChatSession) (w : W)
      → Ended left n records s (k records last s w)

  after_tools-Ended :
      (k : Continuation llm execute now py system tools) (left n : ℕ)
      (records : List ToolCallRecord) (r : MessagesResult) (uses : List ToolUse) (s : ChatSession)
      (w w' : W)
      → Ends k left (suc n)
      → tool_uses r.content ≡ uses
      → Ended (suc left) n records s (
          after_tools llm execute now py system tools k n records r uses
            (say llm execute now py system tools assistant r.content w s)
            w')
  unfolding after_tools final append touch
  after_tools-Ended k left n records r [] s w w' ih e = record {
    added = message llm execute now py system tools assistant r.content w ∷ [];
    appended = refl;
    same_id = refl;
    same_user = refl;
    rounds = at_reply _ _ refl refl e refl refl refl;
    bounded = omega arith;
    cap_reached = λ l q. cc;
  }
  after_tools-Ended k left n records r (t ∷ ts) s w w' ih e =
      let ask = message llm execute now py system tools assistant r.content w in
      let s1 = say llm execute now py system tools assistant r.content w s in
      let (out, w2) = exec_all llm execute now py system tools (t ∷ ts) w' in
      let done = exec_all-IsDone llm execute now py system tools (t ∷ ts) w' in
      elim (Outcome-cases out) [
        | inl (x, q) ↦
            let (u, there, unfit) = rw q at done in
            rw (q, after_tools)
              (record {
                added = ask ∷ [];
                appended = refl;
                same_id = refl;
                same_user = refl;
                rounds = at_refusal ask u x refl (rw e there) unfit refl;
                bounded = omega arith;
                cap_reached = λ l p. cc;
              })
        | inr ((blocks, new), q) ↦
            let reply = message llm execute now py system tools user blocks w2 in
            let rest =
              ih (records ++ new) r.stop_reason
                (say llm execute now py system tools user blocks w2 s1) w2 in
            rw (q, after_tools)
              (record {
                added = ask ∷ reply ∷ rest.added;
                appended =
                    rest.appended
                    ∙ append_assoc (s.messages ++ ask ∷ []) (reply ∷ []) rest.added
                    ∙ append_assoc s.messages (ask ∷ []) (reply ∷ rest.added);
                same_id = rest.same_id;
                same_user = rest.same_user;
                rounds =
                    round ask reply refl refl (λ none_used. cc) (rw e (rw q at done)) rest.rounds;
                bounded = omega (arith, rest.bounded);
                cap_reached = λ l p. omega (arith, rest.cap_reached l p);
              })
      ]

  after_reply-Ended :
      (k : Continuation llm execute now py system tools) (left n : ℕ)
      (records : List ToolCallRecord) (a : Outcome MessagesResult) (s : ChatSession) (w : W)
      → Ends k left (suc n)
      → Ended (suc left) n records s (after_reply llm execute now py system tools k n records a s w)
  unfolding after_reply
  after_reply-Ended k left n records (raised e) s w ih = record {
    added = [];
    appended = sym (append-nil s.messages);
    same_id = refl;
    same_user = refl;
    rounds = at_error e refl;
    bounded = omega arith;
    cap_reached = λ l q. cc;
  }
  after_reply-Ended k left n records (returned r) s w ih =
      after_tools-Ended k left n records r (tool_uses r.content) s w w ih refl

  loop-Ended :
      (left n : ℕ) (records : List ToolCallRecord) (last : String) (s : ChatSession) (w : W)
      → Ended left n records s (turn left n records last s w)
  unfolding loop
  loop-Ended zero n records last s w = record {
    added = [];
    appended = sym (append-nil s.messages);
    same_id = refl;
    same_user = refl;
    rounds = at_cap _ refl;
    bounded = omega arith;
    cap_reached = λ l e. omega arith;
  }
  loop-Ended (suc left) n records last s w =
      after_reply-Ended (loop llm execute now py system tools left (suc n)) left n records
        (llm w (request llm execute now py system tools s)).0 s
        (llm w (request llm execute now py system tools s)).1 (loop-Ended left (suc n))

  -- A turn adds the user's message and then rounds of the protocol: each reply that calls tools is
  -- followed by the answers to exactly these calls, and a reply without calls ends the turn with its
  -- text and the records of all calls. Only if the input of a call or the output of its tool is no dict
  -- are the calls of a reply left without answers, and then the turn ends by an exception. There are at
  -- most `max_iters` rounds, and the cap is reached only after exactly so many. The identifier and the
  -- owner stay.
  pub run_protocol :
      (max_iters : ℕ) (user_text : String) (s : ChatSession) (w : W)
      → (added : List ChatMessage) × ((run llm execute now py system tools max_iters user_text s
            w).1.messages
          ≡ s.messages
            ++ message llm execute now py system tools user (text user_text ∷ []) w ∷ added)
        × Rounds execute py.dumps
            (run llm execute now py system tools max_iters user_text s w).0
            []
            0
            added
        × (length added ≤ 2 * max_iters)
        × ((last : String)
            → (run llm execute now py system tools max_iters user_text s w).0 ≡ capped last
            → length added ≡ 2 * max_iters)
        × ((run llm execute now py system tools max_iters user_text s w).1.session_id
            ≡ s.session_id)
        × ((run llm execute now py system tools max_iters user_text s w).1.user_id ≡ s.user_id)
  unfolding run append touch
  run_protocol max_iters user_text s w =
      let ask = message llm execute now py system tools user (text user_text ∷ []) w in
      let e =
        loop-Ended max_iters 0 [] ""
          (say llm execute now py system tools user (text user_text ∷ []) w s) w in
      (
        e.added,
        e.appended ∙ append_assoc s.messages (ask ∷ []) e.added,
        e.rounds,
        e.bounded,
        e.cap_reached,
        e.same_id,
        e.same_user,
      )
