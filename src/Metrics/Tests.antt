-- ===== src/Metrics/Tests.antt =====
-- Two calls and whole numbers for floats: the theorems on ai_service/src/fos_ai/obs/metrics.py at
-- these.
use food_order_system.Base.{
  ℕ, ◌*◌, ◌≤◌, ◌≡◌, String, true, false, not, none, some, List, [], ◌∷◌, map, arith, leb, newest,
  length, select, In,
}
use food_order_system.Base.Whole.{whole}
use food_order_system.Metrics.{LlmCallRecord, Metrics, init, in_window, summary, percentile}
use food_order_system.Metrics.Ring.{Call, stamped, record_all, record_all-newest}
use food_order_system.Metrics.Totals.{calls_of, sum_calls, sent_by, summary-by_provider, Event}
use food_order_system.Metrics.Percentile.{percentile-rank}

abbrev row : ℕ → String → LlmCallRecord whole
row t p = record {
  ts = t;
  provider = p;
  model = "m";
  input_tokens = 3;
  output_tokens = 4;
  latency_ms = 20;
  cost_usd = 1;
  cache_read_tokens = 0;
  cache_hit = false;
  error = none;
}

abbrev calls : List (Call whole)
calls = (5, none, row 0 "openai") ∷ (6, some 4, row 0 "anthropic") ∷ (7, none, row 0 "openai") ∷ []

abbrev metrics : Metrics whole
metrics = record { cap = 3; records = row 5 "openai" ∷ row 6 "anthropic" ∷ []; counters = [] }

abbrev events : List Event
events = ("search", true) ∷ ("parse", true) ∷ ("search", false) ∷ []

record_all-newest_example :
    ((record_all whole calls (init whole 2)).records ≡ newest 2 (map (stamped whole) calls))
    × (length (record_all whole calls (init whole 2)).records ≤ 2)
record_all-newest_example = record_all-newest whole 2 calls

summary-by_provider_example :
    (calls_of whole (summary whole 10 6 metrics).by_provider "openai"
      ≡ length (select (sent_by whole "openai") (in_window whole 10 6 metrics.records)))
    × (sum_calls whole (summary whole 10 6 metrics).by_provider
        ≡ (summary whole 10 6 metrics).total_calls)
summary-by_provider_example = summary-by_provider whole 10 6 metrics "openai"

percentile-rank_example :
    In (percentile whole (7 ∷ 3 ∷ 5 ∷ []) 95) (7 ∷ 3 ∷ 5 ∷ [])
    × (95 * 3
        ≤ 100
          * length (select (λ x. leb x (percentile whole (7 ∷ 3 ∷ 5 ∷ []) 95)) (7 ∷ 3 ∷ 5 ∷ [])))
    × (100
          * length
              (select (λ x. not (leb (percentile whole (7 ∷ 3 ∷ 5 ∷ []) 95) x)) (7 ∷ 3 ∷ 5 ∷ []))
        ≤ 95 * 3)
percentile-rank_example = percentile-rank whole (7 ∷ 3 ∷ 5 ∷ []) 95 (λ e. cc) (omega arith)
