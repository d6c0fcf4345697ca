-- ===== src/Circuit/Trace.antt =====
-- The breaker over a Redis that answers: what it allows after any sequence of recorded results.
use sse_llm_streaming_servic.Base.{
  ℕ, ◌+◌, ◌≤◌, ◌≡◌, refl, ap, ◌∙◌, List, [], ◌∷◌, Bool, true, false, Option, none, some, ok, arith,
  leb, ltb, if◌then◌else◌, Bool-cases, inl, inr, ◌⊎◌,
}
use sse_llm_streaming_servic.Redis.{RedisClient, IsRedis, Value, word, stamp}
use sse_llm_streaming_servic.Circuit.{
  DistributedCircuitBreaker, closed, is_open, value, state_key, failures_key, last_failure_time_key,
  or_closed, should_allow_request, record_success, record_failure, check_open_timeout,
  timeout_passed,
}
use sse_llm_streaming_servic.Circuit.States.{
  circuit, circuit-open, circuit-closed, closed_is_closed, open_not_closed, open_is_open, Says,
  get_state_lem,
}
use sse_llm_streaming_servic.Circuit.Steps.{success-Says, failure-Says}

-- A recorded result.
pub data Event : Type 0 where
  success : Event
  failure : ℕ → Event

-- How many failures stand since the last success; the newest event is the first.
unfoldable pub streak : List Event → ℕ
streak [] = 0
streak (success ∷ es) = 0
streak (failure now ∷ es) = streak es + 1

unfoldable pub last_failure : List Event → Option Value
last_failure [] = none
last_failure (success ∷ es) = last_failure es
last_failure (failure now ∷ es) = some (stamp now)

last_failure-stamp :
    (es : List Event) → (last_failure es ≡ none) ⊎ ((t : ℕ) × (last_failure es ≡ some (stamp t)))
unfolding last_failure
last_failure-stamp [] = inl refl
last_failure-stamp (success ∷ es) = last_failure-stamp es
last_failure-stamp (failure now ∷ es) = inr (now, refl)

module _ (b : DistributedCircuitBreaker) where
  -- What the breaker should allow: every request below the threshold, and from the threshold on
  -- those that come more than the timeout after the last failure.
  unfoldable pub spec_allows : ℕ → List Event → Bool
  spec_allows now es =
      if leb b.max_failures (streak es)
      then elim (last_failure es) [ some (stamp t) ↦ ltb (t + b.reset_timeout) now | _ ↦ false ]
      else true

module _ {W : Type 0} (r : RedisClient W) (b : DistributedCircuitBreaker) where
  unfoldable pub record_event : Event → W → W
  record_event success w = (record_success r b w).1
  record_event (failure now) w = (record_failure r b now w).1

  unfoldable pub after : List Event → W → W
  after [] w = w
  after (e ∷ es) w = record_event e (after es w)

module _ {W : Type 0} (r : RedisClient W) (law : IsRedis r) (b : DistributedCircuitBreaker) where
  open law use {content}

  -- A server that has never heard of this circuit.
  pub record IsFresh (w : W) : Type 0 where
    pub no_state : content w (state_key b) ≡ none
    pub no_failures : content w (failures_key b) ≡ none
    pub no_time : content w (last_failure_time_key b) ≡ none

  circuit-closed_or_open :
      (n : ℕ) → (circuit b.max_failures n ≡ closed) ⊎ (circuit b.max_failures n ≡ is_open)
  unfolding circuit
  circuit-closed_or_open n = ground arith

  after-Says :
      (es : List Event) (w : W)
      → b.connected ≡ true
      → 1 ≤ b.max_failures
      → IsFresh w
      → Says r law b
          (circuit b.max_failures (streak es))
          (streak es)
          (last_failure es)
          (after r b es w)
  unfolding after record_event streak last_failure
  after-Says [] w on m f = record {
    state =
        rw (circuit-closed b.max_failures 0 (ground arith), f.no_state) (unfold or_closed in refl);
    failures = ground (arith, f.no_failures);
    last_time = f.no_time;
  }
  after-Says (success ∷ es) w on m f = rw (circuit-closed b.max_failures 0 (ground arith)) (
      success-Says r law b (after r b es w) (circuit b.max_failures (streak es)) (streak es)
        (last_failure es) on (circuit-closed_or_open (streak es)) (after-Says es w on m f))
  after-Says (failure now ∷ es) w on m f =
      failure-Says r law b (after r b es w) (streak es) now (last_failure es) on
        (after-Says es w on m f)

  check_open_timeout_lem :
      (now : ℕ) (es : List Event) (w : W)
      → b.connected ≡ true
      → leb b.max_failures (streak es) ≡ true
      → content w (last_failure_time_key b) ≡ last_failure es
      → check_open_timeout r b now w ≡ (ok (spec_allows b now es), w)
  unfolding check_open_timeout spec_allows timeout_passed
  check_open_timeout_lem now es w on reached e = elim (last_failure-stamp es) [
    | inl q ↦ ground (arith, law.get_content (last_failure_time_key b) w)
    | inr (t, q) ↦ ground (arith, law.get_content (last_failure_time_key b) w)
  ]

  -- With a client and a threshold of 1 at least, after any results recorded from a fresh server on,
  -- a request is allowed exactly when fewer failures than the threshold stand since the last
  -- success, or more than the reset timeout has passed since the last failure; the question changes
  -- nothing on the server.
  pub should_allow_request-after :
      (es : List Event) (now : ℕ) (w : W)
      → b.connected ≡ true
      → 1 ≤ b.max_failures
      → IsFresh w
      → should_allow_request r b now (after r b es w) ≡ (ok (spec_allows b now es), after r b es w)
  unfolding should_allow_request
  should_allow_request-after es now w on m f =
      let says = after-Says es w on m f in
      elim (Bool-cases (leb b.max_failures (streak es))) [
        | inl reached ↦
            let c = circuit-open b.max_failures (streak es) reached in
            ground (
              arith,
              get_state_lem r law b (after r b es w) is_open on
                  (says.state ∙ ap (λ x. word (value x)) c),
              open_not_closed,
              open_is_open,
              check_open_timeout_lem now es (after r b es w) on reached says.last_time,
            )
        | inr below ↦
            let c = circuit-closed b.max_failures (streak es) below in
            unfold spec_allows in
            ground (
              arith,
              get_state_lem r law b (after r b es w) closed on
                  (says.state ∙ ap (λ x. word (value x)) c),
              closed_is_closed,
            )
      ]
