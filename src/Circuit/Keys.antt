-- ===== src/Circuit/Keys.antt =====
-- The three keys of a circuit breaker differ.
use text.Mathlib.TextLemmas.{append_cancel_left}
use text.Mathlib.TextEquality.{eq_iff}
use sse_llm_streaming_servic.Base.{◌≢◌, arith}
use sse_llm_streaming_servic.Circuit.{
  DistributedCircuitBreaker, key_prefix, state_key, failures_key, last_failure_time_key,
}

module _ (b : DistributedCircuitBreaker) where
  pub state-ne-failures : state_key b ≢ failures_key b
  unfolding state_key failures_key
  state-ne-failures e =
      let p = append_cancel_left (key_prefix b) ":state" ":failures" e in
      ground (arith, p, eq_iff ":state" ":failures")

  pub state-ne-last : state_key b ≢ last_failure_time_key b
  unfolding state_key last_failure_time_key
  state-ne-last e =
      let p = append_cancel_left (key_prefix b) ":state" ":last_failure_time" e in
      ground (arith, p, eq_iff ":state" ":last_failure_time")

  pub failures-ne-last : failures_key b ≢ last_failure_time_key b
  unfolding failures_key last_failure_time_key
  failures-ne-last e =
      let p = append_cancel_left (key_prefix b) ":failures" ":last_failure_time" e in
      ground (arith, p, eq_iff ":failures" ":last_failure_time")
