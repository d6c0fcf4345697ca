-- ===== src/Circuit/Outage.antt =====
-- The breaker over any Redis at all, also one that raises: it fails open and lets no exception out.
use sse_llm_streaming_servic.Base.{ℕ, ◌≡◌, Bool, true, Exn, Result, ok, raise, arith}
use sse_llm_streaming_servic.Redis.{RedisClient, Value, word}
use sse_llm_streaming_servic.Circuit.{
  DistributedCircuitBreaker, closed, value, state_key, get_state, set_state, should_allow_request,
  record_success, record_failure, check_open_timeout, timeout_passed,
}
use sse_llm_streaming_servic.Circuit.States.{closed_is_closed}

abbrev value_or {ℓ} : {A : Type ℓ} → A → Result A → A
value_or d (ok a) = a
value_or d (raise e) = d

module _ {W : Type 0} (r : RedisClient W) (b : DistributedCircuitBreaker) (now : ℕ) (w : W) where
  get_state_ok : (v : Value) × ((get_state r b w).0 ≡ ok v)
  unfolding get_state
  get_state_ok = (value_or (word (value closed)) (get_state r b w).0, ground arith)

  check_ok : (w' : W) → (allowed : Bool) × ((check_open_timeout r b now w').0 ≡ ok allowed)
  unfolding check_open_timeout timeout_passed
  check_ok w' = (value_or true (check_open_timeout r b now w').0, ground arith)

  should_allow_request_ok : (allowed : Bool) × ((should_allow_request r b now w).0 ≡ ok allowed)
  unfolding should_allow_request
  should_allow_request_ok = (
    value_or true (should_allow_request r b now w).0,
    ground (arith, get_state_ok.1, (check_ok (get_state r b w).1).1),
  )

  pub record_success_ok : (record_success r b w).0 ≡ ok tt
  unfolding record_success get_state set_state
  record_success_ok = ground arith

  pub record_failure_ok : (record_failure r b now w).0 ≡ ok tt
  unfolding record_failure
  record_failure_ok = ground arith

  -- Whatever Redis does, checking and recording return normally.
  pub never_raises :
      ((allowed : Bool) × ((should_allow_request r b now w).0 ≡ ok allowed))
      × ((record_success r b w).0 ≡ ok tt)
      × ((record_failure r b now w).0 ≡ ok tt)
  never_raises = (should_allow_request_ok, record_success_ok, record_failure_ok)

  -- When the read of the state fails, the request is allowed.
  pub outage_allows :
      (e : Exn) (w' : W)
      → r.get (state_key b) w ≡ (raise e, w')
      → (should_allow_request r b now w).0 ≡ ok true
  unfolding should_allow_request get_state
  outage_allows e w' down = ground (arith, closed_is_closed)
