-- ===== src/Metrics/Silence.antt =====
-- What the dashboard is shown of a client that was never entered.
use sse_llm_streaming_servic.Base.{
  ℕ, ◌≡◌, refl, String, List, [], ◌∷◌, true, false, none, M, ok, raise, Option, runtime_error,
  arith, suc, string_discrete,
}
use sse_llm_streaming_servic.Base.Int.{pos}
use sse_llm_streaming_servic.Base.Dict.{Dict, insert, lookup}
use sse_llm_streaming_servic.Prometheus.{World, Param, Response, query, created, is_available}
use sse_llm_streaming_servic.Metrics.Numbers.{Floats, IsFloats, zero_of}
use sse_llm_streaming_servic.Metrics.{
  PrometheusStats, healthy, safe_query, safe_vector_query, get_latency_percentiles, some_positive,
  stage_latency, percentiles, get_latency_metrics, get_connection_metrics, get_throughput_metrics,
  get_cache_metrics, get_queue_metrics, get_circuit_breaker_states, compute_all_metrics,
  state_names, pool_state, get_aggregated_metrics, get_or_compute, fresh,
}

-- Zero everywhere, no stage and no breaker, and a server that is said to be available.
abbrev pub nothing : {F : Type 0} → Floats F → ℕ → PrometheusStats F
nothing f limit = record {
  prometheus_available = true;
  latency = record { stages = []; overall_p99_ms = zero_of f };
  connections = record {
    active = pos 0;
    limit = limit;
    utilization_percent = zero_of f;
    state = healthy;
  };
  throughput = record { requests_per_sec = zero_of f; error_rate_percent = zero_of f };
  cache = record {
    hit_rate_percent = zero_of f;
    l1_hits_per_sec = zero_of f;
    l2_hits_per_sec = zero_of f;
  };
  queue = record { depth = pos 0; produce_failures_per_sec = zero_of f };
  circuit_breakers = [];
}

module _ {H F : Type 0} (f : Floats F) (law : IsFloats f) (float : String → Option F)
    (base_url : String) (get : String → Dict Param → M H (Option Response))
    (retry : M H (Option Response) → M H (Option Response)) (clock : H → ℕ) (later : String → H → ℕ)
    (s : World H) (closed : s.client.initialized ≡ false) where
  query_lem :
      (now done : ℕ) (promql : String)
      → query base_url get retry now done promql s ≡ (raise runtime_error, s)
  unfolding query
  query_lem now done promql = ground arith

  safe_query_lem :
      (promql : String) → safe_query f float base_url get retry clock later promql s ≡ (ok none, s)
  unfolding safe_query
  safe_query_lem promql = rw (query_lem _ _ promql) refl

  safe_vector_query_lem :
      (promql : String)
      → safe_vector_query f float base_url get retry clock later promql s ≡ (ok [], s)
  unfolding safe_vector_query
  safe_vector_query_lem promql = rw (query_lem _ _ promql) refl

  -- The percentiles of a stage.
  abbrev zeros : Dict F
  zeros = ("p50", zero_of f) ∷ ("p90", zero_of f) ∷ ("p99", zero_of f) ∷ []

  percentiles_lem :
      (stage : String)
      → get_latency_percentiles f float base_url get retry clock later stage percentiles [] s
        ≡ (ok zeros, s)
  unfolding get_latency_percentiles insert string_discrete
  percentiles_lem stage = simp safe_query_lem

  not_positive : some_positive f zeros ≡ false
  unfolding some_positive
  not_positive = simp law.lt_zero

  stages_lem :
      (stages : List String)
      → stage_latency f float base_url get retry clock later stages [] s ≡ (ok [], s)
  unfolding stage_latency
  stages_lem [] = refl
  stages_lem (stage ∷ stages) = rw (percentiles_lem stage, not_positive) (stages_lem stages)

  latency_lem :
      get_latency_metrics f float base_url get retry clock later s ≡ (ok (nothing f 0).latency, s)
  unfolding get_latency_metrics
  latency_lem = simp (stages_lem, safe_query_lem, law.le_zero 0)

  connections_lem :
      (n : ℕ)
      → get_connection_metrics f float base_url get retry clock later (suc n) s
        ≡ (ok (nothing f (suc n)).connections, s)
  unfolding get_connection_metrics pool_state
  connections_lem n =
      simp
        (
          safe_query_lem,
          law.lt_suc n,
          law.div_zero n,
          law.mul_zero,
          law.le_zero,
          law.round_zero,
          law.int_zero,
          law.lt_suc 79,
        )
        (ground arith)

  throughput_lem :
      get_throughput_metrics f float base_url get retry clock later s
      ≡ (ok (nothing f 0).throughput, s)
  unfolding get_throughput_metrics
  throughput_lem = simp (safe_query_lem, law.lt_zero, law.le_zero, law.round_zero)

  cache_lem :
      get_cache_metrics f float base_url get retry clock later s ≡ (ok (nothing f 0).cache, s)
  unfolding get_cache_metrics
  cache_lem = simp (safe_query_lem, law.add_zero, law.lt_zero, law.le_zero, law.round_zero)

  queue_lem :
      get_queue_metrics f float base_url get retry clock later s ≡ (ok (nothing f 0).queue, s)
  unfolding get_queue_metrics
  queue_lem = simp (safe_query_lem, law.int_zero, law.le_zero, law.round_zero)

  breakers_lem : get_circuit_breaker_states f float base_url get retry clock later s ≡ (ok [], s)
  unfolding get_circuit_breaker_states state_names
  breakers_lem = simp safe_vector_query_lem

  computed_lem :
      (n : ℕ)
      → is_available (clock s.network) s.client ≡ true
      → compute_all_metrics f float base_url get retry clock later (suc n) s
        ≡ (ok (nothing f (suc n)), s)
  unfolding compute_all_metrics
  computed_lem n available =
      rw
        (
          available,
          latency_lem,
          connections_lem n,
          throughput_lem,
          cache_lem,
          queue_lem,
          breakers_lem,
        )
        refl

module _ {H F : Type 0} (f : Floats F) (law : IsFloats f) (float : String → Option F)
    (base_url : String) (get : String → Dict Param → M H (Option Response))
    (retry : M H (Option Response) → M H (Option Response)) (clock : H → ℕ)
    (later : String → H → ℕ) where
  -- Whatever Prometheus holds: with a limit of 1 at least, the service over a client that was created and never
  -- entered answers, from an empty cache, zero for every metric, with no stage and no breaker, and says that
  -- Prometheus is available; it sends no request, and keeps that answer as fresh.
  pub get_aggregated_metrics-created :
      (n now done : ℕ) (h : H)
      → let w : World H = record { client = created; network = h } in
        get_aggregated_metrics f float base_url get retry clock later
          (suc n)
          now
          done
          (record { entries = []; inner = w })
        ≡ (
          ok (nothing f (suc n)),
          record { entries = ("prometheus_stats", (nothing f (suc n), done)) ∷ []; inner = w },
        )
  unfolding get_aggregated_metrics get_or_compute fresh lookup insert
  get_aggregated_metrics-created n now done h =
      let w : World H = record { client = created; network = h } in
      rw
        (computed_lem f law float base_url get retry clock later w refl n
          (unfold is_available in refl))
        refl
