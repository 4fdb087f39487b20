-- ===== src/Tracing/Rows.antt =====
-- What a sequence of traced calls answers and records.
use food_order_system.Base.{
  not, leb, string_eq, ℕ, String, Bool, true, false, Option, none, some, List, [], ◌∷◌,
}
use Prim.Native.String.{◌++◌ as append}
use food_order_system.Base.Dict
use food_order_system.Base.Float.{Float}
use food_order_system.Llm.Providers.{StreamEvent}
use food_order_system.Metrics.{LlmCallRecord, has_error}
use food_order_system.Metrics.Ring.{Call}
use food_order_system.Tracing.{Usage, no_usage, Response, extract_usage, State, estimate_cost_usd}
use food_order_system.Tracing.Wrapper.{
  Attempt, gives, raises, Ending, finished, closed, fails, Site, wrapper, gen_wrapper, provider_or,
  guess_provider, error_message, usage_of_events,
}

module _ (fl : Float) (lower : String → String) where
  -- A call of a traced method, or of a traced stream.
  pub data Traced : Type 0 where
    method : Site fl lower → Attempt (Option Response) → Traced
    stream : Site fl lower → List StreamEvent → Ending → Traced

  pub data Answer : Type 0 where
    value : Attempt (Option Response) → Answer
    events : List StreamEvent → Ending → Answer

  unfoldable pub run : Traced → State fl → Answer × State fl
  run (method site a) s = let (b, t) = wrapper fl lower site a s in (value b, t)
  run (stream site es e) s = let ((fs, f), t) = gen_wrapper fl lower site es e s in (events fs f, t)

  unfoldable pub run_all : List Traced → State fl → List Answer × State fl
  unfolding run
  run_all [] s = ([], s)
  run_all (c ∷ cs) s = let (a, t) = run c s in let (rest, u) = run_all cs t in (a ∷ rest, u)

  -- What the caller would see without the decorator.
  abbrev pub untraced : Traced → Answer
  untraced (method site a) = value a
  untraced (stream site es e) = events es e

  abbrev pub is_raised : Traced → Bool
  is_raised (method site (gives v)) = false
  is_raised (method site (raises k m)) = true
  is_raised (stream site es finished) = false
  is_raised (stream site es closed) = false
  is_raised (stream site es (fails k m)) = true

  abbrev pub site_of : Traced → Site fl lower
  site_of (method site a) = site
  site_of (stream site es e) = site

  -- When, of which provider and model, and whether it failed.
  abbrev pub Key : Type 0
  Key = ℕ × String × String × Bool

  abbrev pub key_of_call : Traced → Key
  key_of_call c =
      let site = site_of c in
      (
        site.now,
        provider_or fl lower site.provider (guess_provider fl lower site.cls_name),
        site.model,
        is_raised c,
      )

  abbrev pub key_of_row : LlmCallRecord fl → Key
  key_of_row r = (r.ts, r.provider, r.model, has_error fl r)

  usage_of : Traced → Usage
  usage_of (method site (gives v)) = extract_usage v
  usage_of (method site (raises k m)) = no_usage
  usage_of (stream site es e) = usage_of_events es no_usage

  error_of : Traced → Option String
  error_of (method site (gives v)) = none
  error_of (method site (raises k m)) = some (error_message k m)
  error_of (stream site es finished) = none
  error_of (stream site es closed) = none
  error_of (stream site es (fails k m)) = some (error_message k m)

  -- The row of a call, as the metrics get it. Its price does not depend on what has been logged.
  row : Site fl lower → Usage → Option String → LlmCallRecord fl
  unfolding extract_usage
  row site u error = record {
    ts = 0;
    provider = provider_or fl lower site.provider (guess_provider fl lower site.cls_name);
    model = site.model;
    input_tokens = u.input_tokens;
    output_tokens = u.output_tokens;
    latency_ms = site.latency_ms;
    cost_usd = (estimate_cost_usd fl site.model u.input_tokens u.output_tokens []).0;
    cache_read_tokens = u.cache_read_tokens;
    cache_hit = not (leb u.cache_read_tokens 0);
    error = error;
  }

  call_of : Traced → Call fl
  unfolding row
  call_of c = ((site_of c).now, none, row (site_of c) (usage_of c) (error_of c))
