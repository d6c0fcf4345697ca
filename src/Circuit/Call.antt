-- ===== src/Circuit/Call.antt =====
-- `ResilientCall.call`: check, execute with retries, record. Tenacity's `retry` is the parameter
-- that wraps the function, and `P` is the state that the function works on.
use sse_llm_streaming_servic.Base.{
  ℕ, ◌≤◌, ◌≡◌, List, ◌∷◌, true, M, Result, ok, raise, circuit_breaker_open, ◌>>=◌, ◌>>◌, pure,
  throw, try, arith, if◌then◌else◌,
}
use sse_llm_streaming_servic.Redis.{RedisClient, IsRedis}
use sse_llm_streaming_servic.Circuit.{
  DistributedCircuitBreaker, should_allow_request, record_success, record_failure,
}
use sse_llm_streaming_servic.Circuit.Outage.{record_success_ok, record_failure_ok}
use sse_llm_streaming_servic.Circuit.Trace.{
  Event, success, failure, after, record_event, IsFresh, spec_allows, should_allow_request-after,
}

pub record Service (P W : Type 0) : Type 0 where
  pub provider : P
  pub server : W

module _ {P W : Type 0} where
  abbrev pub on_server : {A : Type 0} → M W A → M (Service P W) A
  on_server m s = let (a, w) = m s.server in (a, record s { server = w })

  abbrev pub on_provider : {A : Type 0} → M P A → M (Service P W) A
  on_provider m s = let (a, p) = m s.provider in (a, record s { provider = p })

module _ {P W A : Type 0} (r : RedisClient W) (b : DistributedCircuitBreaker)
    (retry : M P A → M P A) where
  unfoldable pub call : M P A → ℕ → ℕ → M (Service P W) A
  call func now later = on_server (should_allow_request r b now) >>= λ is_allowed.
      if is_allowed
      then try
          (on_provider (retry func) >>= λ result. on_server (record_success r b) >> pure result)
          (λ e. on_server (record_failure r b later) >> throw e)
      else throw circuit_breaker_open

  -- The event that an outcome is recorded as.
  unfoldable pub event_of : Result A → ℕ → Event
  event_of (ok a) later = success
  event_of (raise e) later = failure later

  -- With a client, a threshold of 1 at least and a server that answers, after any results recorded
  -- from a fresh server on, a call runs the function, with its retries, exactly when the breaker
  -- should allow it, passes its result or exception on, and records it as one more event, every
  -- exception as a failure, whatever its class; otherwise it raises the open-breaker error, runs
  -- nothing and records nothing.
  pub call-after :
      (law : IsRedis r) (func : M P A) (es : List Event) (now later : ℕ) (p : P) (w : W)
      → b.connected ≡ true
      → 1 ≤ b.max_failures
      → IsFresh r law b w
      → call func now later (record { provider = p; server = after r b es w }) ≡ (
          if spec_allows b now es
          then (
            (retry func p).0,
            record {
              provider = (retry func p).1;
              server = after r b (event_of (retry func p).0 later ∷ es) w;
            },
          )
          else (raise circuit_breaker_open, record { provider = p; server = after r b es w }))
  unfolding call after record_event event_of
  call-after law func es now later p w on m f = ground (
    arith,
    should_allow_request-after r law b es now w on m f,
    record_success_ok r b now (after r b es w),
    record_failure_ok r b later (after r b es w),
  )
