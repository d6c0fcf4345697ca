-- ===== src/Prometheus/Cooldown.antt =====
-- When the client sends a query, after any history of answers.
use Prim.Native.String.{◌++◌ as str_append}
use sse_llm_streaming_servic.Base.{
  ℕ, ◌+◌, ◌≡◌, refl, String, List, [], ◌∷◌, Bool, true, false, Option, M, Result, ok, raise,
  connect_error, timeout_error, http_status_error, prometheus_connection_error,
  prometheus_query_error, arith, leb, if◌then◌else◌,
}
use sse_llm_streaming_servic.Base.Dict.{Dict}
use sse_llm_streaming_servic.Prometheus.{
  PrometheusClient, created, enter, should_attempt_query, record_success, record_failure,
  is_available, Response, World, Param, text, answered, attempt, query,
}

-- What a query counts as: an answer, a failure at a time, or an exception of another kind.
pub data Event : Type 0 where
  success : Event
  failure : ℕ → Event
  ignored : Event

unfoldable pub streak : List Event → ℕ
streak [] = 0
streak (success ∷ es) = 0
streak (failure now ∷ es) = streak es + 1
streak (ignored ∷ es) = streak es

unfoldable pub last_failure : List Event → ℕ
last_failure [] = 0
last_failure (success ∷ es) = last_failure es
last_failure (failure now ∷ es) = now
last_failure (ignored ∷ es) = last_failure es

-- Fewer than three failures since the last answer, or a minute since the last failure.
unfoldable pub spec_allows : ℕ → List Event → Bool
spec_allows now es = if leb 3 (streak es) then leb (last_failure es + 60) now else true

-- An entered client after a history, the newest event first.
unfoldable pub after : List Event → PrometheusClient
after [] = enter created
after (success ∷ es) = record_success (after es)
after (failure now ∷ es) = record_failure now (after es)
after (ignored ∷ es) = after es

-- What the fields of the client say of its history.
abbrev Says : PrometheusClient → List Event → Type 0
Says c es =
    (c.initialized ≡ true)
    × (c.max_failures ≡ 3)
    × (c.cooldown_seconds ≡ 60)
    × (c.consecutive_failures ≡ streak es)
    × (c.is_available_local ≡ (if leb 3 (streak es) then false else true))
    × (c.last_failure_time ≡ last_failure es)

after-Says : (es : List Event) → Says (after es) es
unfolding after streak last_failure record_success record_failure
after-Says [] = (refl, refl, refl, refl, refl, refl)
after-Says (success ∷ es) = ground (arith, after-Says es)
after-Says (failure now ∷ es) = ground (arith, after-Says es)
after-Says (ignored ∷ es) = after-Says es

should_attempt_query-after :
    (now : ℕ) (es : List Event) → should_attempt_query now (after es) ≡ spec_allows now es
unfolding should_attempt_query spec_allows
should_attempt_query-after now es = ground (arith, after-Says es)

is_available-after : (now : ℕ) (es : List Event) → is_available now (after es) ≡ spec_allows now es
unfolding is_available spec_allows
is_available-after now es = ground (arith, after-Says es)

unfoldable pub event_of : {A : Type 0} → Result A → ℕ → Event
event_of (ok a) later = success
event_of (raise connect_error) later = failure later
event_of (raise timeout_error) later = failure later
event_of (raise http_status_error) later = failure later
event_of (raise e) later = ignored

-- What the caller gets.
unfoldable pub wrapped : {A : Type 0} → Result A → Result A
wrapped (ok a) = ok a
wrapped (raise connect_error) = raise prometheus_connection_error
wrapped (raise timeout_error) = raise prometheus_connection_error
wrapped (raise http_status_error) = raise prometheus_query_error
wrapped (raise e) = raise e

module _ {H : Type 0} (base_url : String) (get : String → Dict Param → M H (Option Response))
    (retry : M H (Option Response) → M H (Option Response)) where
  -- The request of a query, with its retries.
  abbrev pub sent : String → M H (Option Response)
  sent promql = retry (get (str_append base_url "/api/v1/query") (("query", text promql) ∷ []))

  outcome_lem :
      (later : ℕ) (es : List Event) (x : Result (Option Response) × H)
      → answered base_url get retry later (after es) x
        ≡ (wrapped x.0, record { client = after (event_of x.0 later ∷ es); network = x.1 })
  unfolding wrapped event_of after
  outcome_lem later es (ok a, h) = refl
  outcome_lem later es (raise connect_error, h) = refl
  outcome_lem later es (raise timeout_error, h) = refl
  outcome_lem later es (raise http_status_error, h) = refl
  outcome_lem later es (raise e, h) = refl

  -- After any history of an entered client, a query is sent exactly when fewer than three failures
  -- stand since the last answer, or a minute has passed since the last failure; what the request
  -- answers or raises is then passed on as the client's own error, and is one more event of the history.
  -- Otherwise the query raises the connection error and changes nothing. `is_available` says
  -- which of the two it will be.
  pub query-after :
      (es : List Event) (now later : ℕ) (promql : String) (h : H)
      → let s : World H = record { client = after es; network = h } in
        let x = sent promql h in
        (query base_url get retry now later promql s ≡ (
          if spec_allows now es
          then (wrapped x.0, record { client = after (event_of x.0 later ∷ es); network = x.1 })
          else (raise prometheus_connection_error, s)))
        × (is_available now (after es) ≡ spec_allows now es)
  unfolding query attempt
  query-after es now later promql h = (
    ground (
      arith,
      (after-Says es).0,
      should_attempt_query-after now es,
      outcome_lem later es (sent promql h),
    ),
    is_available-after now es,
  )
