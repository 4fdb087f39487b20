-- ===== src/Tracing/Tests.antt =====
-- A method that returns, one that raises and a stream that its consumer closes: the wrappers of
-- ai_service/src/fos_ai/obs/tracing.py at these.
use food_order_system.Base.Dict
use food_order_system.Base.{
  ℕ, String, true, false, none, some, List, [], ◌∷◌, ◌≡◌, refl, select, is_blank, any,
}
use food_order_system.Base.Whole.{whole}
use food_order_system.Schemas.{text, tool_use}
use food_order_system.Base.Json.{obj, end}
use food_order_system.Llm.Providers.{text_delta, message_stop}
use food_order_system.Metrics.{init}
use food_order_system.Tracing.{
  Response, State, dict_item, sdk_object, extract_usage, estimate_cost_usd,
}
use food_order_system.Tracing.Wrapper.{
  Tracing, Site, gives, raises, closed, init_tracing, otlp_exporter,
}
use food_order_system.Tracing.Rows.{Traced, method, stream}

abbrev same : String → String
same s = s

abbrev site : ℕ → String → Site whole same
site now cls = record {
  provider = none;
  cls_name = cls;
  method_name = "messages";
  model = "gpt-4o";
  now = now;
  latency_ms = 12;
}

abbrev reply : Response
reply = record {
  usage = some (record {
    input_tokens = none;
    output_tokens = none;
    prompt_tokens = some 2_000_000;
    completion_tokens = some 0;
    cache_read_input_tokens = none;
  });
  stop_reason = some "stop";
  content = some (dict_item (tool_use "a" "b" (obj end)) ∷ sdk_object ∷ dict_item (text "") ∷ []);
}

abbrev traced : List (Traced whole same)
traced =
    method (site 1 "openaillmclient") (gives (some reply))
    ∷ method (site 2 "anthropicllmclient") (raises "ValueError" "bad")
    ∷ stream (site 3 "scripted") (text_delta "hi" ∷ message_stop "end_turn" [] ∷ []) closed
    ∷ []

reads_usage : extract_usage (some reply) ≡ record {
  input_tokens = 2_000_000;
  output_tokens = 0;
  cache_read_tokens = 0;
  stop_reason = "stop";
  tool_calls_count = 1;
}
unfolding extract_usage select
reads_usage = refl

prices :
    (estimate_cost_usd whole "gpt-4o" 2_000_000 0 [] ≡ (4, []))
    × (estimate_cost_usd whole "other" 7 7 [] ≡ (0, "other" ∷ []))
unfolding estimate_cost_usd Dict.get is_blank any
prices = (refl, refl)

abbrev fresh : Tracing
fresh = record { initialized = false; providers = [] }

stays_initialized :
    init_tracing (λ e. true) (some "b") true (init_tracing (λ e. true) (some "a") false fresh)
    ≡ record { initialized = true; providers = (otlp_exporter "a" ∷ []) ∷ [] }
unfolding init_tracing is_blank
stays_initialized = refl

abbrev start : State whole
start = record { unknown_logged = []; metrics = init whole 2; spans = [] }
