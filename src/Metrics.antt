-- ===== src/Metrics.antt =====
-- ai_service/src/fos_ai/obs/metrics.py: the bounded record of LLM calls, the cache counters, and
-- the summary behind `GET /ai/stats`. Times are whole clock ticks.
pub mod Ring
pub mod Totals
pub mod Percentile
mod Tests
use food_order_system.Base.{
  ℕ, zero, suc, ◌+◌, ◌-◌, ◌*◌, ◌/◌, ◌≤◌, min, max, String, Bool, true, false, not, Option, none,
  some, List, [], ◌∷◌, ◌++◌, map, if◌then◌else◌, ltb, leb, length, drop, select, is_empty, is_blank,
  string_eq,
}
use food_order_system.Base.Dict
use food_order_system.Base.Dict.{Dict}
use food_order_system.Base.Float.{Float}
use food_order_system.Base.Sort.{sort}

abbrev pub max_records : ℕ
max_records = 10_000

pub record CacheCounter : Type 0 where
  pub hits : ℕ
  pub misses : ℕ

-- `self._cache_counters`
abbrev pub Counters : Type 0
Counters = Dict String CacheCounter

-- `setdefault(namespace, _CacheCounter())`
unfoldable pub counter_of : Counters → String → CacheCounter
counter_of cs ns = elim (Dict.get cs ns) [ none ↦ record { hits = 0; misses = 0 } | some c ↦ c ]

unfoldable pub bump : Bool → CacheCounter → CacheCounter
bump hit c = if hit then record c { hits = c.hits + 1 } else record c { misses = c.misses + 1 }

unfoldable pub record_cache : String → Bool → Counters → Counters
record_cache ns hit cs = Dict.put cs ns (bump hit (counter_of cs ns))

module _ (fl : Float) where
  open fl use {F, zero_f, of_nat, add_f, div_f, round_f, leb_f}

  pub record LlmCallRecord : Type 0 where
    pub ts : ℕ
    pub provider : String
    pub model : String
    pub input_tokens : ℕ
    pub output_tokens : ℕ
    pub latency_ms : F
    pub cost_usd : F
    pub cache_read_tokens : ℕ
    pub cache_hit : Bool
    pub error : Option String

  -- `Metrics`: `cap` is the `maxlen` of the deque.
  pub record Metrics : Type 0 where
    pub cap : ℕ
    pub records : List LlmCallRecord
    pub counters : Counters

  unfoldable pub init : ℕ → Metrics
  init cap = record { cap = cap; records = []; counters = [] }

  -- `deque(maxlen=cap).append(r)`: a full deque drops its oldest entry.
  unfoldable pub push : ℕ → List LlmCallRecord → LlmCallRecord → List LlmCallRecord
  push cap rs r = drop (length (rs ++ r ∷ []) - cap) (rs ++ r ∷ [])

  -- `ts=None` reads the clock.
  unfoldable pub record_llm_call : ℕ → Option ℕ → LlmCallRecord → Metrics → Metrics
  unfolding push
  record_llm_call now ts call m =
      let stamp : ℕ = elim ts [ none ↦ now | some t ↦ t ] in
      record m { records = push m.cap m.records (record call { ts = stamp }) }

  unfoldable pub reset : Metrics → Metrics
  reset m = record m { records = []; counters = [] }

  -- The loop of `sum`.
  unfoldable pub sum_from : F → List F → F
  sum_from acc [] = acc
  sum_from acc (x ∷ xs) = sum_from (add_f acc x) xs

  unfoldable pub sum_f : List F → F
  unfolding sum_from
  sum_f xs = sum_from zero_f xs

  unfoldable pub mean : List F → F
  unfolding sum_f
  mean xs = if is_empty xs then zero_f else div_f (sum_f xs) (of_nat (length xs))

  unfoldable pub nth : F → List F → ℕ → F
  nth d [] i = d
  nth d (x ∷ xs) zero = x
  nth d (x ∷ xs) (suc i) = nth d xs i

  -- `math.ceil(pct / 100.0 * n)` at a whole percentage.
  unfoldable pub rank : ℕ → ℕ → ℕ
  rank pct n = max 1 ((pct * n + 99) / 100)

  unfoldable pub percentile : List F → ℕ → F
  unfolding nth rank
  percentile xs pct =
      if is_empty xs
      then zero_f
      else let ordered = sort leb_f xs in
        nth zero_f ordered (min (rank pct (length ordered) - 1) (length ordered - 1))

  pub record Bucket : Type 0 where
    pub total_calls : ℕ
    pub total_cost_usd : F
    pub lat_sum : F

  unfoldable pub bucket_of : Dict String Bucket → String → Bucket
  bucket_of bs p = elim (Dict.get bs p) [
    | none ↦ record { total_calls = 0; total_cost_usd = zero_f; lat_sum = zero_f }
    | some b ↦ b
  ]

  unfoldable pub add_call : Bucket → LlmCallRecord → Bucket
  add_call b r = record {
    total_calls = b.total_calls + 1;
    total_cost_usd = add_f b.total_cost_usd r.cost_usd;
    lat_sum = add_f b.lat_sum r.latency_ms;
  }

  -- The body of `for r in records`.
  unfoldable pub add_to_bucket : Dict String Bucket → LlmCallRecord → Dict String Bucket
  add_to_bucket bs r = Dict.put bs r.provider (add_call (bucket_of bs r.provider) r)

  unfoldable pub group_by_provider : Dict String Bucket → List LlmCallRecord → Dict String Bucket
  group_by_provider bs [] = bs
  group_by_provider bs (r ∷ rs) = group_by_provider (add_to_bucket bs r) rs

  pub record ProviderStats : Type 0 where
    pub calls : ℕ
    pub cost : F
    pub avg_latency : F

  unfoldable pub provider_stats : Bucket → ProviderStats
  provider_stats b = record {
    calls = b.total_calls;
    cost = round_f b.total_cost_usd 6;
    avg_latency = round_f (div_f b.lat_sum (of_nat (max 1 b.total_calls))) 3;
  }

  pub record NamespaceStats : Type 0 where
    pub ns_hits : ℕ
    pub ns_misses : ℕ
    pub hit_rate : F

  -- `round(h / n, 4) if n else 0.0`
  unfoldable pub hit_rate_of : ℕ → ℕ → F
  hit_rate_of h n = if leb n 0 then zero_f else round_f (div_f (of_nat h) (of_nat n)) 4

  unfoldable pub namespace_stats : CacheCounter → NamespaceStats
  unfolding hit_rate_of
  namespace_stats c = record {
    ns_hits = c.hits;
    ns_misses = c.misses;
    hit_rate = hit_rate_of c.hits (c.hits + c.misses);
  }

  -- `if r.error`: a missing error and an empty one both count as none.
  unfoldable pub has_error : LlmCallRecord → Bool
  has_error r = elim r.error [ none ↦ false | some e ↦ not (is_blank e) ]

  pub record Summary : Type 0 where
    pub window_seconds : ℕ
    pub total_calls : ℕ
    pub total_input_tokens : ℕ
    pub total_output_tokens : ℕ
    pub total_cost_usd : F
    pub avg_latency_ms : F
    pub p95_latency_ms : F
    pub error_rate : F
    pub by_provider : Dict String ProviderStats
    pub namespaces : Dict String NamespaceStats
    pub overall_hit_rate : F

  unfoldable pub sum_by : (LlmCallRecord → ℕ) → List LlmCallRecord → ℕ
  sum_by f [] = 0
  sum_by f (r ∷ rs) = f r + sum_by f rs

  unfoldable pub total_hits : Counters → ℕ
  total_hits [] = 0
  total_hits ((ns, c) ∷ cs) = c.hits + total_hits cs

  unfoldable pub total_misses : Counters → ℕ
  total_misses [] = 0
  total_misses ((ns, c) ∷ cs) = c.misses + total_misses cs

  -- `[r for r in self._records if r.ts >= cutoff]`
  unfoldable pub in_window : ℕ → ℕ → List LlmCallRecord → List LlmCallRecord
  in_window now window rs = select (λ r. leb (now - max 1 window) r.ts) rs

  unfoldable pub summary : ℕ → ℕ → Metrics → Summary
  unfolding in_window sum_by sum_f mean percentile has_error group_by_provider provider_stats
      namespace_stats total_hits total_misses hit_rate_of
  summary now window m =
      let rs = in_window now window m.records in
      let calls = length rs in
      record {
        window_seconds = window;
        total_calls = calls;
        total_input_tokens = sum_by (λ r. r.input_tokens) rs;
        total_output_tokens = sum_by (λ r. r.output_tokens) rs;
        total_cost_usd = round_f (sum_f (map (λ r. r.cost_usd) rs)) 6;
        avg_latency_ms = round_f (mean (map (λ r. r.latency_ms) rs)) 3;
        p95_latency_ms = round_f (percentile (map (λ r. r.latency_ms) rs) 95) 3;
        error_rate =
            round_f
              (if leb calls 0
                then zero_f
                else div_f (of_nat (length (select has_error rs))) (of_nat calls))
              4;
        by_provider = map (λ e. (e.0, provider_stats e.1)) (group_by_provider [] rs);
        namespaces = map (λ e. (e.0, namespace_stats e.1)) m.counters;
        overall_hit_rate =
            let h = total_hits m.counters in hit_rate_of h (h + total_misses m.counters);
      }
