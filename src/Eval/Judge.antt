-- ===== src/Eval/Judge.antt =====
-- ai_service/eval/metrics/judge.py: the language model as a judge, by a vote of several samples.
-- Regular expressions and conversions of json are arguments.
use food_order_system.Base.{
  ℕ, zero, suc, ◌+◌, max, String, string_eq, nat_eq, not, Option, none, some, List, [], ◌∷◌, ◌++◌,
  map, if◌then◌else◌, leb, nat_beq, is_blank, is_empty, strip, join, select,
}
use food_order_system.Base.Dict
use food_order_system.Base.Dict.{Dict}
use food_order_system.Base.Int.{ℤ, pos, negsuc}
use food_order_system.Base.Json.{Json, obj, get_field}
use food_order_system.Base.Outcome.{Outcome, returned, raised}
use food_order_system.Schemas.{Block, text, tool_use, tool_result}
use food_order_system.Llm.{ToolReply, tool_call_result, text_only_result}

-- A turn of a conversation: its role, and its content, a text or a list of blocks.
pub data Content : Type 0 where
  plain : String → Content
  blocks : List Block → Content

pub record Turn : Type 0 where
  pub role : String
  pub content : Content

-- What `int(v)` does: a number, an exception that the code catches, or another.
pub data Cast : Type 0 where
  cast : ℤ → Cast
  caught : Cast
  uncaught : String → Cast

-- A score, if there is one, and the rationale.
abbrev pub Reading : Type 0
Reading = Option ℕ × String

abbrev pub unread : Reading
unread = (none, "")

-- `0 <= score <= 5`
unfoldable pub in_scale : ℤ → Option ℕ
in_scale (pos n) = if leb n 5 then some n else none
in_scale (negsuc n) = none

module _ (upper quote : String → String) where
  unfoldable pub part_of : Block → String
  part_of (text t) = t
  part_of (tool_use i name v) = join "" ("<tool_use name=" ∷ quote name ∷ ">" ∷ [])
  part_of (tool_result i p e) = "<tool_result>"

  unfoldable pub content_text : Content → String
  unfolding part_of
  content_text (plain t) = t
  content_text (blocks bs) = join " | " (select (λ p. not (is_blank p)) (map part_of bs))

  unfoldable pub format_transcript : List Turn → String
  unfolding content_text
  format_transcript turns =
      join "\n" (map (λ t. join "" (upper t.role ∷ ": " ∷ content_text t.content ∷ [])) turns)

-- `Counter(scores)`
unfoldable pub counter : List ℕ → Dict ℕ ℕ → Dict ℕ ℕ
counter [] counts = counts
counter (s ∷ scores) counts =
    let before : ℕ = elim (Dict.get counts s) [ none ↦ 0 | some n ↦ n ] in
    counter scores (Dict.put counts s (before + 1))

-- `max` of a list that is not empty; of an empty list it is 0 here.
unfoldable pub maximum : List ℕ → ℕ
maximum [] = 0
maximum (n ∷ ns) = max n (maximum ns)

unfoldable pub majority : List ℕ → ℕ
unfolding counter maximum
majority scores =
    let counts = counter scores [] in
    let top = maximum (map (λ e. e.1) counts) in
    if is_empty scores then 0 else maximum (map (λ e. e.0) (select (λ e. nat_beq (e.1) top) counts))

pub record Verdict : Type 0 where
  pub score : ℕ
  pub votes : List ℕ
  pub rationales : List String
  pub parse_failures : ℕ

unfoldable pub raw_of : ToolReply → String
raw_of (tool_call_result name input raw stop) = raw
raw_of (text_only_result t stop) = t

abbrev empty_verdict : Verdict
empty_verdict = record { score = 0; votes = []; rationales = []; parse_failures = 0 }

unfoldable pub note : Reading → Verdict → Verdict
note (none, rationale) v = record v { parse_failures = v.parse_failures + 1 }
note (some score, rationale) v = record v {
  votes = v.votes ++ score ∷ [];
  rationales = v.rationales ++ rationale ∷ [];
}

-- What reads a reply: `loads` is `json.loads`, where none is a `ValueError`; `to_int` and `display`
-- are `int` and `str`; `find_score` and `find_rationale` are the groups that the patterns find, and
-- `digits` is `int` of the first.
pub record Reader : Type 0 where
  pub loads : String → Option Json
  pub to_int : Option Json → Cast
  pub display : Option Json → String
  pub find_score : String → Option String
  pub find_rationale : String → Option String
  pub digits : String → Option ℕ

module _ (reader : Reader) where
  open reader use {loads, to_int, display, find_score, find_rationale, digits}

  unfoldable pub rationale_of : String → String
  rationale_of raw = elim (find_rationale raw) [ none ↦ "" | some r ↦ r ]

  -- The part of `_parse_score` after the strict attempt.
  unfoldable pub search_score : String → Reading
  unfolding rationale_of
  search_score raw = elim (find_score raw) [
    | none ↦ unread
    | some group ↦ elim (digits group) [
      | none ↦ unread
      | some n ↦ if leb n 5 then (some n, rationale_of raw) else unread
    ]
  ]

  -- What comes of the number in the object; `back` is the answer of the search.
  unfoldable pub read_number : Reading → Option Json → Cast → Outcome Reading
  unfolding in_scale
  read_number back rationale (uncaught e) = raised e
  read_number back rationale caught = returned back
  read_number back rationale (cast n) = elim (in_scale n) [
    | none ↦ returned back
    | some score ↦ returned (some score, elim rationale [ none ↦ "" | some r ↦ display (some r) ])
  ]

  -- `data.get` of what is no object is an `AttributeError`, which is not caught.
  unfoldable pub read_json : Reading → Json → Outcome Reading
  unfolding read_number
  read_json back (obj fields) =
      read_number back (get_field fields "rationale") (to_int (get_field fields "score"))
  read_json back _ = raised "AttributeError"

  unfoldable pub parse_score : String → Outcome Reading
  unfolding search_score read_json
  parse_score raw = if is_blank (strip raw) then returned unread else elim (loads (strip raw)) [
    | none ↦ returned (search_score (strip raw))
    | some value ↦ read_json (search_score (strip raw)) value
  ]

  -- `ask` is the call of the model, on a world.
  module _ {W : Type 0} (ask : W → Outcome ToolReply × W) where
    unfoldable pub read_sample : Outcome ToolReply → Outcome Reading
    unfolding parse_score raw_of
    read_sample (raised e) = returned unread
    read_sample (returned reply) = parse_score (raw_of reply)

    -- The loop over the samples.
    unfoldable pub sample : ℕ → Verdict → W → Outcome Verdict × W
    unfolding read_sample note
    sample zero v w = (returned v, w)
    sample (suc n) v w =
        let (reply, next) = ask w in
        elim (read_sample reply) [
          | raised e ↦ (raised e, next)
          | returned reading ↦ sample n (note reading v) next
        ]

    unfoldable pub judge_samples : ℕ → W → Outcome Verdict × W
    unfolding sample majority
    judge_samples samples w =
        if leb samples 0
        then (raised "samples must be >= 1", w)
        else let (result, next) = sample samples empty_verdict w in
          elim result [
            | raised e ↦ (raised e, next)
            | returned v ↦ (returned (record v { score = majority v.votes }), next)
          ]

abbrev pub judge_system : String
judge_system =
    "You are a strict evaluator. Given a chat transcript and a criteria statement, rate how well the assistant's final answer meets the criteria on an integer scale from 0 (unusable) to 5 (excellent). Respond ONLY with JSON: {\"score\": <int 0-5>, \"rationale\": \"<1 short sentence>\"}."

-- `ask` is `llm.tool_call` with the prompt of the system and the message of the user.
module _ (reader : Reader) (upper quote : String → String) {W : Type 0}
    (ask : W → String → String → Outcome ToolReply × W) where
  unfoldable pub user_message : List Turn → String → String
  unfolding format_transcript
  user_message conversation criteria = join "" (
      "CRITERIA:\n"
      ∷ strip criteria
      ∷ "\n\n"
      ∷ "TRANSCRIPT:\n"
      ∷ format_transcript upper quote conversation
      ∷ "\n\n"
      ∷ "Score the assistant's final answer against the criteria."
      ∷ [])

  unfoldable pub llm_as_judge : List Turn → String → ℕ → W → Outcome Verdict × W
  unfolding judge_samples user_message
  llm_as_judge conversation criteria samples w =
      judge_samples reader (λ v. ask v judge_system (user_message conversation criteria)) samples w
