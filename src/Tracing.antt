-- ===== src/Tracing.antt =====
-- ai_service/src/fos_ai/obs/tracing.py: the price of a call, the usage that is read from a reply, and
-- the wrappers that record every call of the language model in a span and in the metrics. A span is
-- what the code sets on it.
mod Tests
pub mod Wrapper
pub mod Rows
use food_order_system.Base.{
  ℕ, String, string_eq, Bool, true, false, ◌||◌, not, Option, none, some, List, [], ◌∷◌, ◌++◌,
  length, select, any, if◌then◌else◌, leb, ◌==◌, is_blank,
}
use food_order_system.Base.Dict
use food_order_system.Base.Dict.{Dict}
use food_order_system.Base.Float.{Float}
use food_order_system.Schemas.{Block, text, tool_use, tool_result}
use food_order_system.Metrics.{Metrics, record_llm_call}

-- `COST_TABLE`, in cents for a million tokens: of the input, of the output.
abbrev pub cost_table : Dict String (ℕ × ℕ)
cost_table =
    ("claude-haiku-4-5-20251001", (80, 400))
    ∷ ("claude-sonnet-4-6", (300, 1_500))
    ∷ ("claude-opus-4-6", (1_500, 7_500))
    ∷ ("gpt-4o-mini", (15, 60))
    ∷ ("gpt-4o", (250, 1_000))
    ∷ []

-- An item of the content of a reply: a dictionary, or an object of an SDK.
pub data Item : Type 0 where
  dict_item : Block → Item
  sdk_object : Item

-- The attributes of the usage of a reply; one that is missing or `None` is `none`.
pub record SdkUsage : Type 0 where
  pub input_tokens : Option ℕ
  pub output_tokens : Option ℕ
  pub prompt_tokens : Option ℕ
  pub completion_tokens : Option ℕ
  pub cache_read_input_tokens : Option ℕ

-- What the code reads of a reply. `content` is there when it is a list.
pub record Response : Type 0 where
  pub usage : Option SdkUsage
  pub stop_reason : Option String
  pub content : Option (List Item)

-- The dictionary of usage, with the values that `_record` reads for missing keys.
pub record Usage : Type 0 where
  pub input_tokens : ℕ
  pub output_tokens : ℕ
  pub cache_read_tokens : ℕ
  pub stop_reason : String
  pub tool_calls_count : ℕ

abbrev pub no_usage : Usage
no_usage = record {
  input_tokens = 0;
  output_tokens = 0;
  cache_read_tokens = 0;
  stop_reason = "";
  tool_calls_count = 0;
}

unfoldable pub is_tool_use : Block → Bool
is_tool_use (text t) = false
is_tool_use (tool_use i n v) = true
is_tool_use (tool_result i p e) = false

unfoldable pub is_tool_item : Item → Bool
unfolding is_tool_use
is_tool_item (dict_item b) = is_tool_use b
is_tool_item sdk_object = false

-- `it or 0` for the first attribute that is not `None`.
unfoldable pub tokens_of : Option ℕ → Option ℕ → ℕ
tokens_of (some n) other = n
tokens_of none (some n) = n
tokens_of none none = 0

-- `_extract_usage`
unfoldable pub extract_usage : Option Response → Usage
unfolding tokens_of is_tool_item
extract_usage none = no_usage
extract_usage (some r) =
    let counted : Usage = elim r.usage [
      | none ↦ no_usage
      | some u ↦ record no_usage {
        input_tokens = tokens_of u.input_tokens u.prompt_tokens;
        output_tokens = tokens_of u.output_tokens u.completion_tokens;
        cache_read_tokens = tokens_of u.cache_read_input_tokens none;
      }
    ] in
    record counted {
      stop_reason = elim r.stop_reason [ none ↦ "" | some s ↦ s ];
      tool_calls_count = elim r.content [
        | none ↦ 0
        | some items ↦ length (select is_tool_item items)
      ];
    }

module _ (fl : Float) where
  open fl use {F, zero_f, of_nat, add_f, mul_f, div_f, round_f}

  pub data Attribute : Type 0 where
    text_attribute : String → Attribute
    nat_attribute : ℕ → Attribute
    float_attribute : F → Attribute
    flag_attribute : Bool → Attribute

  pub record Span : Type 0 where
    pub span_name : String
    pub attributes : List (String × Attribute)
    pub exceptions : List String

  -- `_UNKNOWN_MODELS_LOGGED`, the metrics, and the spans that have ended.
  pub record State : Type 0 where
    pub unknown_logged : List String
    pub metrics : Metrics fl
    pub spans : List Span

  -- The quotient of `tokens` by a million, at a price in cents.
  unfoldable pub priced : ℕ → ℕ → F
  priced tokens cents =
      mul_f (div_f (of_nat tokens) (of_nat 1_000_000)) (div_f (of_nat cents) (of_nat 100))

  -- `_estimate_cost_usd`, with the names of unknown models that have been logged.
  unfoldable pub estimate_cost_usd : String → ℕ → ℕ → List String → F × List String
  unfolding priced
  estimate_cost_usd model input output logged = elim (Dict.get cost_table model) [
    | none ↦ (
      zero_f,
      (if is_blank model || any (λ m. m == model) logged then logged else logged ++ model ∷ []),
    )
    | some (in_price, out_price) ↦ (add_f (priced input in_price) (priced output out_price), logged)
  ]

  -- `if n: span.set_attribute(key, n)`
  unfoldable pub nat_if : String → ℕ → List (String × Attribute)
  nat_if key n = if leb n 0 then [] else (key, nat_attribute n) ∷ []

  unfoldable pub text_if : String → String → List (String × Attribute)
  text_if key s = if is_blank s then [] else (key, text_attribute s) ∷ []

  -- The calls of `span.set_attribute` in `_record`.
  unfoldable pub attributes_of :
      String → String → Usage → F → F → Option String → List (String × Attribute)
  unfolding nat_if text_if
  attributes_of provider model usage latency_ms cost error =
      (("gen_ai.system", text_attribute provider) ∷ [])
      ++ text_if "gen_ai.request.model" model
      ++ nat_if "gen_ai.usage.input_tokens" usage.input_tokens
      ++ nat_if "gen_ai.usage.output_tokens" usage.output_tokens
      ++ (("gen_ai.usage.cost_usd", float_attribute (round_f cost 6)) ∷ [])
      ++ (("gen_ai.latency_ms", float_attribute (round_f latency_ms 3)) ∷ [])
      ++ text_if "gen_ai.stop_reason" usage.stop_reason
      ++ nat_if "gen_ai.tool_calls_count" usage.tool_calls_count
      ++ (("gen_ai.cache.read_tokens", nat_attribute usage.cache_read_tokens) ∷ [])
      ++ (("gen_ai.cache.hit", flag_attribute (not (leb usage.cache_read_tokens 0))) ∷ [])
      ++ elim error [ none ↦ [] | some e ↦ text_if "gen_ai.error" e ]

  -- `_record` on the span that the call opened; `now` is what the metrics read from the clock.
  unfoldable pub record_call :
      ℕ → String → String → Usage → F → Option String → Span → State → State
  unfolding estimate_cost_usd attributes_of
  record_call now provider model usage latency_ms error span s =
      let (cost, logged) =
        estimate_cost_usd model usage.input_tokens usage.output_tokens s.unknown_logged in
      record {
        unknown_logged = logged;
        metrics =
            record_llm_call fl now none
              (record {
                ts = 0;
                provider = provider;
                model = model;
                input_tokens = usage.input_tokens;
                output_tokens = usage.output_tokens;
                latency_ms = latency_ms;
                cost_usd = cost;
                cache_read_tokens = usage.cache_read_tokens;
                cache_hit = not (leb usage.cache_read_tokens 0);
                error = error;
              })
              s.metrics;
        spans =
            s.spans
            ++ record span {
              attributes =
                  span.attributes ++ attributes_of provider model usage latency_ms cost error;
            }
              ∷ [];
      }
