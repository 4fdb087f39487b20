-- ===== src/Metrics/Totals.antt =====
-- The totals of the summary: calls by provider, and hits and misses by namespace.
use food_order_system.Base.{
  ℕ, suc, ◌+◌, ◌≡◌, refl, ap, none, some, List, [], ◌∷◌, arith, map, length, select, String,
  string_eq, Bool, not, ◌&&◌, if◌then◌else◌, ==_iff, Eq, ◌==◌,
}
use food_order_system.Base.Dict
use food_order_system.Base.Dict.{Dict, get-put}
use food_order_system.Base.Float.{Float}
use food_order_system.Metrics.{
  LlmCallRecord, Metrics, Bucket, Counters, bucket_of, counter_of, add_to_bucket, add_call, bump,
  group_by_provider, in_window, summary, ProviderStats, provider_stats, record_cache,
}

get-map {ℓ κ μ} :
    {K : Type ℓ} {V : Type κ} {W : Type μ} ⦃e : Eq K⦄ (f : V → W) (d : Dict K V) (k : K)
    → Dict.get (map (λ p. (p.0, f p.1)) d) k
      ≡ elim (Dict.get d k) [ none ↦ none | some v ↦ some (f v) ]
unfolding Dict.get
get-map f [] k = refl
get-map f ((j, v) ∷ d) k = ground (arith, get-map f d k)

module _ (fl : Float) where
  bucket_calls : Dict String (Bucket fl) → String → ℕ
  bucket_calls bs p = elim (Dict.get bs p) [ none ↦ 0 | some b ↦ b.total_calls ]

  abbrev pub sent_by : String → LlmCallRecord fl → Bool
  sent_by p r = r.provider == p

  bucket_calls-add :
      (bs : Dict String (Bucket fl)) (r : LlmCallRecord fl) (p : String)
      → bucket_calls (add_to_bucket fl bs r) p
        ≡ (if sent_by p r then suc (bucket_calls bs p) else bucket_calls bs p)
  unfolding bucket_calls add_to_bucket add_call bucket_of
  bucket_calls-add bs r p = ground (
    arith,
    get-put bs r.provider p (add_call fl (bucket_of fl bs r.provider) r),
    ==_iff r.provider p,
  )

  bucket_calls-group :
      (rs : List (LlmCallRecord fl)) (bs : Dict String (Bucket fl)) (p : String)
      → bucket_calls (group_by_provider fl bs rs) p
        ≡ bucket_calls bs p + length (select (sent_by p) rs)
  unfolding group_by_provider select
  bucket_calls-group [] bs p = omega arith
  bucket_calls-group (r ∷ rs) bs p =
      ground (arith, bucket_calls-group rs (add_to_bucket fl bs r) p, bucket_calls-add bs r p)

  abbrev pub calls_of : Dict String (ProviderStats fl) → String → ℕ
  calls_of ps p = elim (Dict.get ps p) [ none ↦ 0 | some s ↦ s.calls ]

  abbrev pub sum_calls : Dict String (ProviderStats fl) → ℕ
  sum_calls [] = 0
  sum_calls ((p, s) ∷ ps) = s.calls + sum_calls ps

  sum_buckets : Dict String (Bucket fl) → ℕ
  sum_buckets [] = 0
  sum_buckets ((p, b) ∷ bs) = b.total_calls + sum_buckets bs

  sum_buckets-put :
      (bs : Dict String (Bucket fl)) (p : String) (b : Bucket fl)
      → sum_buckets (Dict.put bs p b) + bucket_calls bs p ≡ sum_buckets bs + b.total_calls
  unfolding sum_buckets bucket_calls Dict.put Dict.get
  sum_buckets-put [] p b = omega arith
  sum_buckets-put ((q, c) ∷ bs) p b = ground (arith, sum_buckets-put bs p b)

  sum_buckets-add :
      (bs : Dict String (Bucket fl)) (r : LlmCallRecord fl)
      → sum_buckets (add_to_bucket fl bs r) ≡ suc (sum_buckets bs)
  unfolding add_to_bucket bucket_calls add_call bucket_of
  sum_buckets-add bs r =
      ground (arith, sum_buckets-put bs r.provider (add_call fl (bucket_of fl bs r.provider) r))

  sum_buckets-group :
      (rs : List (LlmCallRecord fl)) (bs : Dict String (Bucket fl))
      → sum_buckets (group_by_provider fl bs rs) ≡ sum_buckets bs + length rs
  unfolding group_by_provider
  sum_buckets-group [] bs = omega arith
  sum_buckets-group (r ∷ rs) bs =
      omega (arith, sum_buckets-group rs (add_to_bucket fl bs r), sum_buckets-add bs r)

  nothing_yet : (p : String) → bucket_calls [] p ≡ 0
  unfolding bucket_calls Dict.get
  nothing_yet p = refl

  no_buckets : sum_buckets [] ≡ 0
  unfolding sum_buckets
  no_buckets = refl

  calls_of-map :
      (bs : Dict String (Bucket fl)) (p : String)
      → calls_of (map (λ e. (e.0, provider_stats fl e.1)) bs) p ≡ bucket_calls bs p
  unfolding bucket_calls provider_stats
  calls_of-map bs p = ground (arith, get-map (provider_stats fl) bs p)

  sum_calls-map :
      (bs : Dict String (Bucket fl))
      → sum_calls (map (λ e. (e.0, provider_stats fl e.1)) bs) ≡ sum_buckets bs
  unfolding sum_buckets provider_stats
  sum_calls-map [] = refl
  sum_calls-map ((p, b) ∷ bs) = ap (λ n. b.total_calls + n) (sum_calls-map bs)

  -- In a summary each provider is given exactly the calls in the window that it served, and the
  -- providers' calls add up to the total.
  pub summary-by_provider :
      (now window : ℕ) (m : Metrics fl) (p : String)
      → (calls_of (summary fl now window m).by_provider p
          ≡ length (select (sent_by p) (in_window fl now window m.records)))
        × (sum_calls (summary fl now window m).by_provider ≡ (summary fl now window m).total_calls)
  unfolding summary
  summary-by_provider now window m p =
      let rs = in_window fl now window m.records in
      let bs = group_by_provider fl [] rs in
      (
        ground (arith, calls_of-map bs p, bucket_calls-group rs [] p, nothing_yet p),
        ground (arith, sum_calls-map bs, sum_buckets-group rs [], no_buckets),
      )

-- A cache event: the namespace, and whether it was a hit.
abbrev pub Event : Type 0
Event = String × Bool

unfoldable pub count_events : List Event → Counters → Counters
count_events [] cs = cs
count_events ((ns, hit) ∷ es) cs = count_events es (record_cache ns hit cs)

abbrev pub hits_of : Counters → String → ℕ
hits_of cs ns = elim (Dict.get cs ns) [ none ↦ 0 | some c ↦ c.hits ]

abbrev pub misses_of : Counters → String → ℕ
misses_of cs ns = elim (Dict.get cs ns) [ none ↦ 0 | some c ↦ c.misses ]

abbrev pub is_hit_in : String → Event → Bool
is_hit_in ns e = (e.0 == ns) && e.1

abbrev pub is_miss_in : String → Event → Bool
is_miss_in ns e = (e.0 == ns) && not e.1

hits_of-record :
    (k : String) (hit : Bool) (cs : Counters) (ns : String)
    → hits_of (record_cache k hit cs) ns ≡ hits_of cs ns + (if is_hit_in ns (k, hit) then 1 else 0)
unfolding record_cache counter_of bump
hits_of-record k hit cs ns =
    ground (arith, get-put cs k ns (bump hit (counter_of cs k)), ==_iff k ns)

misses_of-record :
    (k : String) (hit : Bool) (cs : Counters) (ns : String)
    → misses_of (record_cache k hit cs) ns
      ≡ misses_of cs ns + (if is_miss_in ns (k, hit) then 1 else 0)
unfolding record_cache counter_of bump
misses_of-record k hit cs ns =
    ground (arith, get-put cs k ns (bump hit (counter_of cs k)), ==_iff k ns)

-- Each namespace counts its own hits and its own misses, whatever the others do.
pub count_events-counts :
    (es : List Event) (cs : Counters) (ns : String)
    → (hits_of (count_events es cs) ns ≡ hits_of cs ns + length (select (is_hit_in ns) es))
      × (misses_of (count_events es cs) ns ≡ misses_of cs ns + length (select (is_miss_in ns) es))
unfolding count_events select
count_events-counts [] cs ns = (omega arith, omega arith)
count_events-counts ((k, hit) ∷ es) cs ns = ground (
  arith,
  count_events-counts es (record_cache k hit cs) ns,
  hits_of-record k hit cs ns,
  misses_of-record k hit cs ns,
)
