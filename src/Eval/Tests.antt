-- ===== src/Eval/Tests.antt =====
-- A judge with a parrot for a model, a chat script of two turns, and a gate that is missed: the code of
-- ai_service/eval and of ai_service/src/fos_ai/eval/run.py at these.
use food_order_system.Base.Dict
use food_order_system.Base.{
  zero, suc, ℕ, ◌≡◌, ◌↔◌, refl, ◌⊎◌, String, string_eq, true, none, some, Option, List, [], ◌∷◌,
  All, arith, repeat, ◌==◌, if◌then◌else◌, any, take, select, is_blank, strip,
}
use food_order_system.Base.Whole.{whole, tenths}
use food_order_system.Base.Int.{pos}
use food_order_system.Base.Json.{Json, int, str, arr, nil, obj, end, field}
use food_order_system.Base.Outcome.{Outcome, returned, raised}
use food_order_system.Chat.{Texts}
use food_order_system.Llm.{ToolReply, text_only_result}
use food_order_system.Eval.{RunResult, mean, indicator, hit_at_k, reciprocal_rank}
use food_order_system.Eval.Judge
use food_order_system.Eval.Judge.{
  plain, Cast, cast, caught, Reader, Verdict, llm_as_judge, majority,
}
use food_order_system.Eval.Verdicts.{IsVerdict, Escaped, asked, llm_as_judge_lem}
use food_order_system.Eval.ChatSuite.{Case, plan_ok, distinct, run_chat}
use food_order_system.Eval.Plans.{IsPlanned}
use food_order_system.Eval.Passing.{IsFollowed, run_chat-passes}
use food_order_system.Eval.Gates.{Runners, main, suites_of, run_named}
use food_order_system.Eval.Exit.{IsPassed, main-exit_iff}

-- The first relevant item is the second.
ranks :
    (hit_at_k tenths (7 ∷ 3 ∷ 5 ∷ []) (5 ∷ 3 ∷ []) 1 ≡ 0)
    × (hit_at_k tenths (7 ∷ 3 ∷ 5 ∷ []) (5 ∷ 3 ∷ []) 2 ≡ 10)
    × (reciprocal_rank tenths (7 ∷ 3 ∷ 5 ∷ []) (5 ∷ 3 ∷ []) ≡ 5)
unfolding hit_at_k reciprocal_rank any take
ranks = (refl, refl, refl)

-- Ties go to the highest score.
ties : majority (2 ∷ 4 ∷ 2 ∷ 5 ∷ 4 ∷ []) ≡ 4
unfolding majority select Dict.put Dict.get
ties = refl

-- A json that reads the text "4" as an object with the score 4, and no other text.
abbrev loads : String → Option Json
loads s = if s == "4" then some (obj (field "score" (int (pos 4)) end)) else none

abbrev to_int : Option Json → Cast
to_int (some (int n)) = cast n
to_int v = caught

abbrev reader : Reader
reader = record {
  loads = loads;
  to_int = to_int;
  display = λ v. "v";
  find_score = λ s. none;
  find_rationale = λ s. none;
  digits = λ s. none;
}

-- The model answers 4 at first, then raises, then chats.
abbrev ask : ℕ → String → String → Outcome ToolReply × ℕ
ask zero system user = (returned (text_only_result "4" "end_turn"), 1)
ask (suc n) system user = (raised "timeout", suc n)

abbrev same : String → String
same s = s

abbrev talk : List Judge.Turn
talk = record { role = "user"; content = plain "Hi" } ∷ []

llm_as_judge_example :
    ((v : Verdict) × ((llm_as_judge reader same same ask talk "Polite" 3 0).0 ≡ returned v)
      × IsVerdict reader (asked reader same same ask talk "Polite") 3 v)
    ⊎ ((e : String) × ((llm_as_judge reader same same ask talk "Polite" 3 0).0 ≡ raised e)
        × Escaped reader (asked reader same same ask talk "Polite") e)
llm_as_judge_example = llm_as_judge_lem reader same same ask talk "Polite" 3 0 (omega arith)

-- json that is no object is not caught.
abbrev lists : Reader
lists = record reader { loads = λ s. some (arr nil) }

judge_raises : (llm_as_judge lists same same ask talk "Polite" 1 0).0 ≡ raised "AttributeError"
unfolding llm_as_judge is_blank strip
judge_raises = refl

abbrev cases : List Case
cases =
    record {
      id = str "c01";
      turns =
          record { user = "Hi"; expected_tool = none; expected_text_contains = "help" ∷ [] }
          ∷ record {
            user = "Any duck?";
            expected_tool = some "search_menu";
            expected_text_contains = "duck" ∷ "menu" ∷ [];
          }
          ∷ [];
    }
    ∷ []

abbrev texts : Texts
texts = record {
  dumps = λ v. "{}";
  show = λ n. "5";
  quote = λ s. s;
  invalid = λ input output. "validation error";
}

abbrev chat_run : RunResult whole
chat_run = run_chat whole (λ n. "1") (λ s. s) (λ s. s.idx) texts "Be brief." "s" cases

run_chat-passes_example :
    All (IsFollowed whole (λ n. "1") (λ s. s) (λ s. s.idx) texts "Be brief." "s") cases
    × (chat_run.failures ≡ [])
    × (chat_run.metrics
        ≡ ("tool_plan_match", mean whole (repeat 2 (indicator whole true)))
          ∷ ("text_contains_rate", mean whole (repeat 2 (indicator whole true)))
          ∷ [])
    × ((tool : Option String) (called : List String)
        → plan_ok tool (distinct called) ≡ true
        → IsPlanned tool called)
unfolding is_blank
run_chat-passes_example =
    run_chat-passes whole (λ n. "1") (λ s. s) (λ s. s.idx) texts "Be brief." "s" cases refl

abbrev chat_result : RunResult tenths
chat_result = record {
  suite = "chat";
  n_cases = 2;
  metrics = ("tool_plan_match", 10) ∷ ("text_contains_rate", 7) ∷ [];
  failures = [];
}

abbrev runners : Runners tenths (λ v. "v") (λ n. "1") (λ v. "{}")
runners = record {
  search = raised "no corpus";
  recommend = raised "no corpus";
  parse = raised "no corpus";
  chat = returned chat_result;
}

main-exit_iff_example :
    (code : ℕ) × (report : String) × (main tenths
        (λ v. "v")
        (λ n. "1")
        (λ v. "{}")
        runners
        none
        "now"
        "chat"
      ≡ returned (code, report))
    × ((code ≡ 0)
        ↔ All
            (λ s. IsPassed tenths (λ v. "v") (λ n. "1") (λ v. "{}") runners s)
            (suites_of tenths (λ v. "v") (λ n. "1") (λ v. "{}") "chat"))
unfolding suites_of run_named
main-exit_iff_example =
    main-exit_iff tenths (λ v. "v") (λ n. "1") (λ v. "{}") runners none "now" "chat"
      ((chat_result, refl), tt)
