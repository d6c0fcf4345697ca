-- ===== src/Tests/Breaker.antt =====
-- The circuit breaker at concrete results.
use sse_llm_streaming_servic.Base.{
  ℕ, ◌≡◌, refl, String, List, [], ◌∷◌, true, false, M, ok, raise, circuit_breaker_open,
  if◌then◌else◌, arith,
}
use sse_llm_streaming_servic.Circuit.{DistributedCircuitBreaker, should_allow_request}
use sse_llm_streaming_servic.Circuit.Trace.{
  Event, success, failure, after, spec_allows, IsFresh, should_allow_request-after,
}
use sse_llm_streaming_servic.Circuit.Trace
use sse_llm_streaming_servic.Circuit.Call.{call, event_of, call-after}
use sse_llm_streaming_servic.Tests.Servers.{empty, redis, redis_laws}

abbrev breaker : DistributedCircuitBreaker
breaker = record { name = "openai"; max_failures = 2; reset_timeout = 60; connected = true }

abbrev results : List Event
results = failure 120 ∷ failure 100 ∷ success ∷ failure 90 ∷ []

fresh : IsFresh redis redis_laws breaker empty
fresh = record { no_state = refl; no_failures = refl; no_time = refl }

should_allow_request-after_example :
    should_allow_request redis breaker 150 (after redis breaker results empty)
    ≡ (ok (spec_allows breaker 150 results), after redis breaker results empty)
should_allow_request-after_example =
    should_allow_request-after redis redis_laws breaker results 150 empty refl (omega arith) fresh

-- The circuit is open at 150, and every request passes once 60 have gone by since the last failure.
refused_at_150 : spec_allows breaker 150 results ≡ false
unfolding spec_allows Trace.streak Trace.last_failure
refused_at_150 = refl

allowed_at_181 : spec_allows breaker 181 results ≡ true
unfolding spec_allows Trace.streak Trace.last_failure
allowed_at_181 = refl

abbrev once : M ℕ String → M ℕ String
once m = m

abbrev answering : M ℕ String
answering p = (ok "text", p)

call-after_example :
    call redis breaker once answering 181 182
      (record { provider = 7; server = after redis breaker results empty })
    ≡ (if spec_allows breaker 181 results
        then (
          ok "text",
          record {
            provider = 7;
            server =
                after redis breaker (event_of redis breaker once (ok "text") 182 ∷ results) empty;
          },
        )
        else (
          raise circuit_breaker_open,
          record { provider = 7; server = after redis breaker results empty },
        ))
call-after_example =
    call-after redis breaker once redis_laws answering results 181 182 7 empty refl (omega arith)
      fresh
