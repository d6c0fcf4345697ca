-- ===== src/Circuit.antt =====
-- The circuit breaker, src/core/resilience/circuit_breaker.py. `DistributedCircuitBreaker` keeps
-- its state in Redis; `time.time()` is the argument `now`, in the unit of `reset_timeout`.
pub mod Keys
pub mod States
pub mod Steps
pub mod Trace
pub mod Outage
pub mod Call
use Prim.Native.String.{◌++◌ as str_append}
use sse_llm_streaming_servic.Base.{
  ℕ, ◌+◌, String, Bool, true, false, not, Option, none, some, M, Exn, Result, ok, raise,
  value_error, then_with, handle_with, ◌>>=◌, ◌>>◌, pure, throw, try, ltb, if◌then◌else◌, ite,
  string_discrete,
}
use sse_llm_streaming_servic.Base.Int.{ℤ, pos, negsuc, geb}
use sse_llm_streaming_servic.Redis.{RedisClient, Value, word, number, stamp}

-- `CircuitState`; Redis keeps the member's text.
pub data CircuitState : Type 0 where
  closed is_open half_open : CircuitState

unfoldable pub value : CircuitState → String
value closed = "closed"
value is_open = "open"
value half_open = "half_open"

-- The fields of `DistributedCircuitBreaker`; `connected` says that it has a client.
pub record DistributedCircuitBreaker : Type 0 where
  pub name : String
  pub max_failures : ℕ
  pub reset_timeout : ℕ
  pub connected : Bool

unfoldable pub key_prefix : DistributedCircuitBreaker → String
key_prefix b = str_append "circuit:" b.name

unfoldable pub state_key : DistributedCircuitBreaker → String
state_key b = str_append (key_prefix b) ":state"

unfoldable pub failures_key : DistributedCircuitBreaker → String
failures_key b = str_append (key_prefix b) ":failures"

unfoldable pub last_failure_time_key : DistributedCircuitBreaker → String
last_failure_time_key b = str_append (key_prefix b) ":last_failure_time"

-- `state == CircuitState.…`, for what Redis returned.
unfoldable pub is_state : CircuitState → Value → Bool
is_state c (word t) = ite (string_discrete t (value c)) true false
is_state c (number n) = false
is_state c (stamp t) = false

-- `if not state: return CircuitState.CLOSED`
unfoldable pub or_closed : Option Value → Value
or_closed none = word (value closed)
or_closed (some (word t)) = ite (string_discrete t "") (word (value closed)) (word t)
or_closed (some (number n)) = number n
or_closed (some (stamp t)) = stamp t

-- `if last_failure_str`, `float(last_failure_str)`, and the test that the timeout has passed.
unfoldable pub timeout_passed : {W : Type 0} → ℕ → ℕ → Value → M W Bool
timeout_passed reset_timeout now (stamp last) = pure (ltb (last + reset_timeout) now)
timeout_passed reset_timeout now (number (pos last)) = pure (ltb (last + reset_timeout) now)
timeout_passed reset_timeout now (number (negsuc n)) = pure (ltb reset_timeout (now + n + 1))
timeout_passed reset_timeout now (word t) =
    ite (string_discrete t "") (pure false) (throw value_error)

module _ {W : Type 0} (r : RedisClient W) (b : DistributedCircuitBreaker) where
  unfoldable pub get_state : M W Value
  get_state =
      if b.connected
      then try (r.get (state_key b) >>= λ state. pure (or_closed state))
          (λ _. pure (word (value closed)))
      else pure (word (value closed))

  unfoldable pub set_state : CircuitState → M W (Unit {0})
  set_state c =
      if b.connected then try (r.set (state_key b) (word (value c))) (λ _. pure tt) else pure tt

  -- The branch of an open circuit: how long it has been open.
  unfoldable pub check_open_timeout : ℕ → M W Bool
  check_open_timeout now =
      if b.connected
      then try
          (r.get (last_failure_time_key b) >>= λ last. elim last [
            | none ↦ pure false
            | some v ↦ timeout_passed b.reset_timeout now v
          ])
          (λ _. pure true)
      else pure true

  unfoldable pub should_allow_request : ℕ → M W Bool
  should_allow_request now = get_state >>= λ state.
      if is_state closed state
      then pure true
      else (if is_state is_open state then check_open_timeout now else pure true)

  unfoldable pub record_success : M W (Unit {0})
  record_success =
      if b.connected
      then try
          (get_state >>= λ state.
            (if is_state closed state then pure tt else set_state closed)
            >> r.set (failures_key b) (number (pos 0)))
          (λ _. pure tt)
      else pure tt

  -- Step 3 of `record_failure`.
  unfoldable pub trip : ℤ → M W (Unit {0})
  trip failures =
      if geb failures b.max_failures
      then (get_state >>= λ state. if is_state is_open state then pure tt else set_state is_open)
      else pure tt

  unfoldable pub record_failure : ℕ → M W (Unit {0})
  record_failure now =
      if b.connected
      then try (r.set (last_failure_time_key b) (stamp now) >> (r.incr (failures_key b) >>= trip))
          (λ _. pure tt)
      else pure tt
