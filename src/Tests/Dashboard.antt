-- ===== src/Tests/Dashboard.antt =====
-- A Prometheus that counts its requests, and the theorems on its client and on the dashboard.
use sse_llm_streaming_servic.Base.{
  ℕ, ◌+◌, ◌*◌, ◌/◌, ◌≡◌, refl, String, List, [], ◌∷◌, false, none, Option, M, ok, raise,
  connect_error, prometheus_connection_error, arith, ltb, leb, ◌==◌, if◌then◌else◌, string_discrete,
}
use sse_llm_streaming_servic.Base.Int.{pos}
use sse_llm_streaming_servic.Base.Dict.{Dict, lookup}
use sse_llm_streaming_servic.Prometheus.{World, Param, Response, created, query, is_available}
use sse_llm_streaming_servic.Prometheus.Cooldown.{
  Event, success, failure, after, event_of, wrapped, spec_allows, sent, query-after,
}
use sse_llm_streaming_servic.Metrics.{Cached, stored, fresh, get_or_compute, get_aggregated_metrics}
use sse_llm_streaming_servic.Metrics.Numbers.{Floats, IsFloats}
use sse_llm_streaming_servic.Metrics.Freshness.{get_or_compute-again}
use sse_llm_streaming_servic.Metrics.Silence.{nothing, get_aggregated_metrics-created}

-- The network counts the requests, and refuses each.
abbrev get : String → Dict Param → M ℕ (Option Response)
get url params n = (raise connect_error, n + 1)

abbrev retry : M ℕ (Option Response) → M ℕ (Option Response)
retry m = m

abbrev history : List Event
history = failure 100 ∷ failure 90 ∷ failure 80 ∷ success ∷ []

query-after_example :
    let s : World ℕ = record { client = after history; network = 4 } in
    let x = sent "http://p" get retry "up" 4 in
    (query "http://p" get retry 160 161 "up" s ≡ (
      if spec_allows 160 history
      then (wrapped x.0, record { client = after (event_of x.0 161 ∷ history); network = x.1 })
      else (raise prometheus_connection_error, s)))
    × (is_available 160 (after history) ≡ spec_allows 160 history)
query-after_example = query-after "http://p" get retry history 160 161 "up" 4

-- Natural numbers in place of floats.
abbrev whole : Floats ℕ
whole = record {
  of_ℕ = λ n. n;
  add = λ a b. a + b;
  mul = λ a b. a * b;
  div = λ a b. a / b;
  lt = ltb;
  le = leb;
  round = λ n. n;
  int = λ n. pos n;
  is_zero = λ n. n == 0;
  is_special = λ n. false;
}

whole-IsFloats : IsFloats whole
whole-IsFloats = record {
  add_zero = refl;
  mul_zero = λ n. omega arith;
  div_zero = λ n. omega arith;
  lt_zero = refl;
  lt_suc = λ n. ground arith;
  le_zero = λ n. ground arith;
  round_zero = refl;
  int_zero = refl;
}

abbrev float : String → Option ℕ
float t = none

get_aggregated_metrics-created_example :
    let w : World ℕ = record { client = created; network = 4 } in
    get_aggregated_metrics whole float "http://p" get retry
      (λ h. h)
      (λ q h. h)
      90
      5
      6
      (record { entries = []; inner = w })
    ≡ (
      ok (nothing whole 90),
      record { entries = ("prometheus_stats", (nothing whole 90, 6)) ∷ []; inner = w },
    )
get_aggregated_metrics-created_example =
    get_aggregated_metrics-created whole whole-IsFloats float "http://p" get retry (λ h. h)
      (λ q h. h) 89 5 6 4

-- A computation that counts its runs.
abbrev counting : M ℕ ℕ
counting n = (ok n, n + 1)

abbrev stale_cache : Cached ℕ ℕ
stale_cache = record { entries = ("k", (7, 10)) ∷ []; inner = 8 }

stale : fresh 30 50 (lookup "k" stale_cache.entries) ≡ none
unfolding fresh lookup string_discrete
stale = refl

get_or_compute-again_example :
    let one = get_or_compute 30 "k" counting 50 51 stale_cache in
    (one.0 ≡ ok 8)
    × (get_or_compute 30 "k" counting 80 82 one.1 ≡ (
        if ltb 80 (51 + 30)
        then (ok 8, one.1)
        else stored 30 "k" 82 (counting one.1.inner) one.1.entries))
get_or_compute-again_example =
    get_or_compute-again 30 "k" counting counting 50 51 80 82 8 stale_cache stale refl
