-- ===== src/Tracing/Wrapper.antt =====
-- ai_service/src/fos_ai/obs/tracing.py: `init_tracing` and the two wrappers of `trace_llm_call`. The
-- wrapped method is its outcome.
use food_order_system.Base.{
  ℕ, String, Bool, true, Option, none, some, List, [], ◌∷◌, ◌++◌, length, select, if◌then◌else◌,
  is_blank, has_part, join,
}
use food_order_system.Base.Float.{Float}
use food_order_system.Llm.Providers.{StreamEvent, text_delta, message_stop}
use food_order_system.Tracing.{
  Usage, no_usage, Response, is_tool_use, extract_usage, Span, State, record_call,
}

pub data Exporter : Type 0 where
  console_exporter : Exporter
  otlp_exporter : String → Exporter

-- `_TRACING_INITIALIZED`, and the span processors of the providers that were installed.
pub record Tracing : Type 0 where
  pub initialized : Bool
  pub providers : List (List Exporter)

-- `init_tracing`; `available` says whether the exporter of an endpoint can be made.
unfoldable pub init_tracing : (String → Bool) → Option String → Bool → Tracing → Tracing
init_tracing available otlp_endpoint console t =
    let exporters : List Exporter = elim otlp_endpoint [
      | none ↦ []
      | some e ↦ if is_blank e then [] else if available e then otlp_exporter e ∷ [] else []
    ] in
    if t.initialized then t else record {
      initialized = true;
      providers =
          t.providers ++ ((if console then console_exporter ∷ [] else []) ++ exporters) ∷ [];
    }

-- What a method does: it gives a value, or it raises an exception of a class with a message.
pub data Attempt (V : Type 0) : Type 0 where
  gives : V → Attempt V
  raises : (kind message : String) → Attempt V

-- How the iteration over a stream ends. The consumer may close it before its end.
pub data Ending : Type 0 where
  finished : Ending
  closed : Ending
  fails : (kind message : String) → Ending

-- `f"{type(exc).__name__}: {exc}"`
unfoldable pub error_message : String → String → String
error_message kind message = join "" (kind ∷ ": " ∷ message ∷ [])

-- The usage in the last `message_stop` of a stream.
unfoldable pub usage_of_events : List StreamEvent → Usage → Usage
unfolding is_tool_use
usage_of_events [] usage = usage
usage_of_events (text_delta t ∷ es) usage = usage_of_events es usage
usage_of_events (message_stop stop content ∷ es) usage =
    usage_of_events es (record no_usage {
      stop_reason = stop;
      tool_calls_count = length (select is_tool_use content);
    })

module _ (fl : Float) (lower : String → String) where
  open fl use {F}

  -- A call of a decorated method: the decorator's argument, the class, the method and `_model` of
  -- the client (empty when it has none), the clock of the metrics, and how long the call took.
  pub record Site : Type 0 where
    pub provider : Option String
    pub cls_name : String
    pub method_name : String
    pub model : String
    pub now : ℕ
    pub latency_ms : F

  -- `_guess_provider`
  unfoldable pub guess_provider : String → String
  guess_provider cls_name =
      if has_part "anthropic" (lower cls_name)
      then "anthropic"
      else if has_part "openai" (lower cls_name)
      then "openai"
      else "unknown"

  -- `provider or default`
  unfoldable pub provider_or : Option String → String → String
  provider_or none default = default
  provider_or (some p) default = if is_blank p then default else p

  unfoldable pub open_span : Site → List String → Span fl
  unfolding provider_or
  open_span site exceptions = record {
    span_name =
        join "" ("llm." ∷ provider_or site.provider "unknown" ∷ "." ∷ site.method_name ∷ []);
    attributes = [];
    exceptions = exceptions;
  }

  -- The call of `_record`, with the provider that the wrapper resolved.
  unfoldable pub finish : Site → Usage → Option String → List String → State fl → State fl
  unfolding provider_or guess_provider open_span
  finish site usage error exceptions s =
      record_call fl site.now (provider_or site.provider (guess_provider site.cls_name)) site.model
        usage site.latency_ms error (open_span site exceptions) s

  -- `wrapper`
  unfoldable pub wrapper :
      Site → Attempt (Option Response) → State fl → Attempt (Option Response) × State fl
  unfolding finish error_message
  wrapper site (gives reply) s = (gives reply, finish site (extract_usage reply) none [] s)
  wrapper site (raises kind message) s = (
    raises kind message,
    finish site no_usage (some (error_message kind message)) (message ∷ []) s,
  )

  -- `gen_wrapper`, on the events that the consumer took.
  unfoldable pub gen_wrapper :
      Site → List StreamEvent → Ending → State fl → (List StreamEvent × Ending) × State fl
  unfolding finish error_message usage_of_events
  gen_wrapper site events ending s =
      let usage = usage_of_events events no_usage in
      elim ending [
        | finished ↦ ((events, finished), finish site usage none [] s)
        | closed ↦ ((events, closed), finish site usage none [] s)
        | fails kind message ↦ (
          (events, fails kind message),
          finish site usage (some (error_message kind message)) (message ∷ []) s,
        )
      ]
