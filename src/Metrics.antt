-- ===== src/Metrics.antt =====
-- `MetricsService` and `MetricsCache` of src/application/services/metrics_service.py, over the
-- client of Prometheus: what the dashboard is shown. Floats are a parameter (Metrics.Numbers), and
-- the bounds that pydantic checks stand in src/application/api/models/admin.py. Logging is left out.
pub mod Freshness
pub mod Numbers
pub mod Silence
use Prim.Native.String.{◌++◌ as str_append}
use sse_llm_streaming_servic.Base.{
  ℕ, ◌+◌, String, List, [], ◌∷◌, Bool, true, false, ◌&&◌, ◌||◌, Option, none, some, M, Exn, Result,
  ok, raise, validation_error, ◌>>=◌, pure, try, ltb, if◌then◌else◌,
}
use sse_llm_streaming_servic.Base.Int.{ℤ, pos, geb}
use sse_llm_streaming_servic.Base.Dict.{Dict, lookup, insert}
use sse_llm_streaming_servic.Prometheus.{
  World, Param, Response, query, is_available, extract_scalar_value, extract_vector_values,
}
use sse_llm_streaming_servic.Metrics.Numbers.{Floats, zero_of}

-- `MetricsCache`: the values with the time at which they were stored, in seconds.
pub record Cached (A S : Type 0) : Type 0 where
  pub entries : Dict (A × ℕ)
  pub inner : S

-- The entry of the key, if its age is below the limit.
unfoldable pub fresh : {A : Type 0} → ℕ → ℕ → Option (A × ℕ) → Option A
fresh ttl now none = none
fresh ttl now (some (a, at)) = if ltb now (at + ttl) then some a else none

module _ {A S : Type 0} (ttl : ℕ) where
  abbrev pub stored : String → ℕ → Result A × S → Dict (A × ℕ) → Result A × Cached A S
  stored key done (ok a, w) d = (ok a, record { entries = insert key (a, done) d; inner = w })
  stored key done (raise e, w) d = (raise e, record { entries = d; inner = w })

  -- `done` is the time after the computation.
  unfoldable pub get_or_compute : String → M S A → ℕ → ℕ → M (Cached A S) A
  get_or_compute key compute_fn now done s = elim (fresh ttl now (lookup key s.entries)) [
    | some a ↦ (ok a, s)
    | none ↦ stored key done (compute_fn s.inner) s.entries
  ]

pub record LatencyMetrics (F : Type 0) : Type 0 where
  pub stages : Dict (Dict F)
  pub overall_p99_ms : F

pub data ConnectionPoolState : Type 0 where
  healthy degraded exhausted : ConnectionPoolState

pub record ConnectionMetrics (F : Type 0) : Type 0 where
  pub active : ℤ
  pub limit : ℕ
  pub utilization_percent : F
  pub state : ConnectionPoolState

pub record ThroughputMetrics (F : Type 0) : Type 0 where
  pub requests_per_sec : F
  pub error_rate_percent : F

pub record CacheMetrics (F : Type 0) : Type 0 where
  pub hit_rate_percent : F
  pub l1_hits_per_sec : F
  pub l2_hits_per_sec : F

pub record QueueMetrics (F : Type 0) : Type 0 where
  pub depth : ℤ
  pub produce_failures_per_sec : F

pub record PrometheusStats (F : Type 0) : Type 0 where
  pub prometheus_available : Bool
  pub latency : LatencyMetrics F
  pub connections : ConnectionMetrics F
  pub throughput : ThroughputMetrics F
  pub cache : CacheMetrics F
  pub queue : QueueMetrics F
  pub circuit_breakers : Dict String

-- The values of `ProcessingStage`.
abbrev pub stage_names : List String
stage_names = "1" ∷ "2" ∷ "2.1" ∷ "2.2" ∷ "3" ∷ "4" ∷ "5" ∷ "6" ∷ []

-- The percentiles as the query and as the key spell them.
abbrev pub percentiles : Dict String
percentiles = ("0.5", "p50") ∷ ("0.9", "p90") ∷ ("0.99", "p99") ∷ []

-- The constructor of a pydantic model, with the bounds of its fields.
abbrev pub bounded : {S A : Type 0} → Bool → A → M S A
bounded true a s = (ok a, s)
bounded false a s = (raise validation_error, s)

abbrev pub latency_query : String → String → String
latency_query p stage = str_append "histogram_quantile(" (
    str_append p (
      str_append ", sum by (le) (rate(sse_stage_duration_seconds_bucket{stage=\""
        (str_append stage "\"}[5m])))")))

module _ {F : Type 0} (f : Floats F) where
  unfoldable pub finite : Option F → Option F
  finite none = none
  finite (some v) = if f.is_special v then none else some v

  -- The entries of a dictionary whose values are finite.
  unfoldable pub filtered : Dict F → Dict F
  filtered [] = []
  filtered ((k, v) ∷ d) = let rest = filtered d in if f.is_special v then rest else (k, v) ∷ rest

  -- `value if value is not None else 0.0`, and `value or 0.0`.
  abbrev pub or_zero : Option F → F
  or_zero none = zero_of f
  or_zero (some v) = if f.is_zero v then zero_of f else v

  abbrev pub default_zero : Option F → F
  default_zero none = zero_of f
  default_zero (some v) = v

  -- `any(v > 0 for v in values)`
  unfoldable pub some_positive : Dict F → Bool
  some_positive [] = false
  some_positive ((k, v) ∷ d) = f.lt (zero_of f) v || some_positive d

  -- The thresholds of the utilization.
  unfoldable pub pool_state : F → ConnectionPoolState
  pool_state utilization =
      if f.lt utilization (f.of_ℕ 80)
      then healthy
      else (if f.lt utilization (f.of_ℕ 95) then degraded else exhausted)

  -- A part of a whole in percent, and 0 if the whole is not positive.
  abbrev pub percent : F → F → F
  percent part whole =
      if f.lt (zero_of f) whole then f.mul (f.div part whole) (f.of_ℕ 100) else zero_of f

  abbrev pub within_hundred : F → Bool
  within_hundred v = f.le (zero_of f) v && f.le v (f.of_ℕ 100)

  -- `state_value == n`
  abbrev equals : F → ℕ → Bool
  equals v n = f.le v (f.of_ℕ n) && f.le (f.of_ℕ n) v

  unfoldable pub state_name : F → String
  state_name v =
      if equals v 0
      then "closed"
      else (if equals v 1 then "half_open" else (if equals v 2 then "open" else "unknown"))

  unfoldable pub state_names : Dict F → Dict String
  state_names [] = []
  state_names ((provider, v) ∷ d) = (provider, state_name v) ∷ state_names d

module _ {H F : Type 0} (f : Floats F) (float : String → Option F) (base_url : String)
    (get : String → Dict Param → M H (Option Response))
    (retry : M H (Option Response) → M H (Option Response)) (clock : H → ℕ)
    (later : String → H → ℕ) where
  -- A query at the time of the clock; `later` is the time at which its failure is recorded.
  abbrev pub ask : String → M (World H) (Option Response)
  ask promql s = query base_url get retry (clock s.network) (later promql s.network) promql s

  abbrev of_result : {A : Type 0} → Result A → M (World H) A
  of_result a s = (a, s)

  unfoldable pub safe_query : String → M (World H) (Option F)
  safe_query promql =
      try
        (ask promql >>= λ response.
          of_result (extract_scalar_value float response) >>= λ value. pure (finite f value))
        (λ _. pure none)

  unfoldable pub safe_vector_query : String → M (World H) (Dict F)
  safe_vector_query promql =
      try
        (ask promql >>= λ response.
          of_result (extract_vector_values float response) >>= λ values. pure (filtered f values))
        (λ _. pure [])

  unfoldable pub get_latency_percentiles : String → Dict String → Dict F → M (World H) (Dict F)
  get_latency_percentiles stage [] results = pure results
  get_latency_percentiles stage ((p, key) ∷ ps) results =
      safe_query (latency_query p stage) >>= λ value.
      get_latency_percentiles stage ps (insert key (default_zero f value) results)

  unfoldable pub stage_latency : List String → Dict (Dict F) → M (World H) (Dict (Dict F))
  stage_latency [] acc = pure acc
  stage_latency (stage ∷ stages) acc = get_latency_percentiles stage percentiles [] >>= λ ps.
      stage_latency stages (if some_positive f ps then insert stage ps acc else acc)

  unfoldable pub get_latency_metrics : M (World H) (LatencyMetrics F)
  get_latency_metrics = stage_latency stage_names [] >>= λ stages.
      (safe_query
          "histogram_quantile(0.99, sum by (le) (rate(sse_request_duration_seconds_bucket[5m])))"
        >>= λ p99.
            let ms : F = elim p99 [ none ↦ zero_of f | some v ↦ f.mul v (f.of_ℕ 1000) ] in
            bounded (f.le (zero_of f) ms) (record { stages = stages; overall_p99_ms = ms }))

  unfoldable pub get_connection_metrics : ℕ → M (World H) (ConnectionMetrics F)
  get_connection_metrics limit = safe_query "sum(sse_active_connections)" >>= λ found.
      let active = or_zero f found in
      let utilization = percent f active (f.of_ℕ limit) in
      bounded (geb (f.int active) 0 && (ltb 0 limit && within_hundred f (f.round utilization)))
        (record {
          active = f.int active;
          limit = limit;
          utilization_percent = f.round utilization;
          state = pool_state f utilization;
        })

  unfoldable pub get_throughput_metrics : M (World H) (ThroughputMetrics F)
  get_throughput_metrics = safe_query "sum(rate(sse_requests_total[5m]))" >>= λ requests.
      (safe_query "sum(rate(sse_errors_total[5m]))" >>= λ errors.
      let rate = f.round (percent f (or_zero f errors) (or_zero f requests)) in
      bounded (f.le (zero_of f) (f.round (or_zero f requests)) && within_hundred f rate)
        (record { requests_per_sec = f.round (or_zero f requests); error_rate_percent = rate }))

  unfoldable pub get_cache_metrics : M (World H) (CacheMetrics F)
  get_cache_metrics = safe_query "sum(rate(sse_cache_hits_total[5m]))" >>= λ hits.
      (safe_query "sum(rate(sse_cache_misses_total[5m]))" >>= λ misses.
      (safe_query "sum(rate(sse_cache_hits_total{tier=\"L1\"}[5m]))" >>= λ l1.
      (safe_query "sum(rate(sse_cache_hits_total{tier=\"L2\"}[5m]))" >>= λ l2.
      let rate = f.round (percent f (or_zero f hits) (f.add (or_zero f hits) (or_zero f misses))) in
      bounded
        (within_hundred f rate
          && (f.le (zero_of f) (f.round (or_zero f l1))
              && f.le (zero_of f) (f.round (or_zero f l2))))
        (record {
          hit_rate_percent = rate;
          l1_hits_per_sec = f.round (or_zero f l1);
          l2_hits_per_sec = f.round (or_zero f l2);
        }))))

  unfoldable pub get_queue_metrics : M (World H) (QueueMetrics F)
  get_queue_metrics = safe_query "sum(sse_queue_depth) or vector(0)" >>= λ depth.
      (safe_query "sum(rate(sse_queue_produce_failures_total[5m]))" >>= λ failures.
      bounded (geb (f.int (or_zero f depth)) 0 && f.le (zero_of f) (f.round (or_zero f failures)))
        (record {
          depth = f.int (or_zero f depth);
          produce_failures_per_sec = f.round (or_zero f failures);
        }))

  unfoldable pub get_circuit_breaker_states : M (World H) (Dict String)
  get_circuit_breaker_states =
      safe_vector_query "sse_circuit_breaker_state" >>= λ states. pure (state_names f states)

  unfoldable pub compute_all_metrics : ℕ → M (World H) (PrometheusStats F)
  compute_all_metrics limit s =
      let available = is_available (clock s.network) s.client in
      (get_latency_metrics >>= λ latency.
      (get_connection_metrics limit >>= λ connections.
      (get_throughput_metrics >>= λ throughput.
      (get_cache_metrics >>= λ cache.
      (get_queue_metrics >>= λ queue.
      (get_circuit_breaker_states >>= λ circuit_breakers. pure (record {
        prometheus_available = available;
        latency = latency;
        connections = connections;
        throughput = throughput;
        cache = cache;
        queue = queue;
        circuit_breakers = circuit_breakers;
      })))))))
        s

  unfoldable pub get_aggregated_metrics :
      ℕ → ℕ → ℕ → M (Cached (PrometheusStats F) (World H)) (PrometheusStats F)
  get_aggregated_metrics limit = get_or_compute 30 "prometheus_stats" (compute_all_metrics limit)
