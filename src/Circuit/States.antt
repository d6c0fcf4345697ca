-- ===== src/Circuit/States.antt =====
-- What the three keys of a circuit say, and how the commands of a step change them.
use sse_llm_streaming_servic.Base.{
  ℕ, ◌+◌, ◌≡◌, refl, true, false, Option, some, ok, arith, leb, if◌then◌else◌, string_discrete,
}
use sse_llm_streaming_servic.Base.Int.{pos}
use sse_llm_streaming_servic.Redis.{RedisClient, IsRedis, Value, word, number, stamp, counter}
use sse_llm_streaming_servic.Circuit.{
  DistributedCircuitBreaker, CircuitState, closed, is_open, half_open, value, state_key,
  failures_key, last_failure_time_key, is_state, or_closed, get_state, set_state,
}
use sse_llm_streaming_servic.Circuit.Keys.{state-ne-failures, state-ne-last, failures-ne-last}

-- The circuit that the threshold and the streak determine.
unfoldable pub circuit : ℕ → ℕ → CircuitState
circuit max_failures n = if leb max_failures n then is_open else closed

pub circuit-open : (m n : ℕ) → leb m n ≡ true → circuit m n ≡ is_open
unfolding circuit
circuit-open m n e = rw e refl

pub circuit-closed : (m n : ℕ) → leb m n ≡ false → circuit m n ≡ closed
unfolding circuit
circuit-closed m n e = rw e refl

pub closed_is_closed : is_state closed (word (value closed)) ≡ true
unfolding is_state value string_discrete
closed_is_closed = refl

pub open_not_closed : is_state closed (word (value is_open)) ≡ false
unfolding is_state value string_discrete
open_not_closed = refl

pub open_is_open : is_state is_open (word (value is_open)) ≡ true
unfolding is_state value string_discrete
open_is_open = refl

pub closed_not_open : is_state is_open (word (value closed)) ≡ false
unfolding is_state value string_discrete
closed_not_open = refl

pub or_closed-value : (c : CircuitState) → or_closed (some (word (value c))) ≡ word (value c)
unfolding or_closed value string_discrete
or_closed-value closed = refl
or_closed-value is_open = refl
or_closed-value half_open = refl

module _ {W : Type 0} (r : RedisClient W) (law : IsRedis r) (b : DistributedCircuitBreaker) where
  open law use {content}

  -- What the three keys say.
  pub record Says (c : CircuitState) (n : ℕ) (last : Option Value) (w : W) : Type 0 where
    pub state : or_closed (content w (state_key b)) ≡ word (value c)
    pub failures : counter (content w (failures_key b)) ≡ some (pos n)
    pub last_time : content w (last_failure_time_key b) ≡ last

  pub get_state_lem :
      (w : W) (c : CircuitState)
      → b.connected ≡ true
      → or_closed (content w (state_key b)) ≡ word (value c)
      → get_state r b w ≡ (ok (word (value c)), w)
  unfolding get_state
  get_state_lem w c on e = ground (arith, law.get_content (state_key b) w)

  pub set_state_lem :
      (w : W) (c : CircuitState)
      → b.connected ≡ true
      → set_state r b c w ≡ (ok tt, (r.set (state_key b) (word (value c)) w).1)
  unfolding set_state
  set_state_lem w c on = ground (arith, law.set_ok (state_key b) (word (value c)) w)

  -- Writing the state changes nothing else.
  pub written-Says :
      (w : W) (c d : CircuitState) (n : ℕ) (last : Option Value)
      → Says c n last w
      → Says d n last (r.set (state_key b) (word (value d)) w).1
  written-Says w c d n last h = record {
    state =
        ground (
          arith,
          law.set_content (state_key b) (state_key b) (word (value d)) w,
          or_closed-value d,
        );
    failures = ground (
      arith,
      h.failures,
      law.set_content (failures_key b) (state_key b) (word (value d)) w,
      state-ne-failures b,
    );
    last_time = ground (
      arith,
      h.last_time,
      law.set_content (last_failure_time_key b) (state_key b) (word (value d)) w,
      state-ne-last b,
    );
  }

  pub reset-Says :
      (w : W) (c : CircuitState) (n : ℕ) (last : Option Value)
      → Says c n last w
      → Says c 0 last (r.set (failures_key b) (number (pos 0)) w).1
  reset-Says w c n last h = record {
    state = ground (
      arith,
      h.state,
      law.set_content (state_key b) (failures_key b) (number (pos 0)) w,
      state-ne-failures b,
    );
    failures = ground (arith, law.set_content (failures_key b) (failures_key b) (number (pos 0)) w);
    last_time = ground (
      arith,
      h.last_time,
      law.set_content (last_failure_time_key b) (failures_key b) (number (pos 0)) w,
      failures-ne-last b,
    );
  }

  pub stamped-Says :
      (w : W) (c : CircuitState) (n now : ℕ) (last : Option Value)
      → Says c n last w
      → Says c n (some (stamp now)) (r.set (last_failure_time_key b) (stamp now) w).1
  stamped-Says w c n now last h = record {
    state = ground (
      arith,
      h.state,
      law.set_content (state_key b) (last_failure_time_key b) (stamp now) w,
      state-ne-last b,
    );
    failures = ground (
      arith,
      h.failures,
      law.set_content (failures_key b) (last_failure_time_key b) (stamp now) w,
      failures-ne-last b,
    );
    last_time =
        ground (
          arith,
          law.set_content (last_failure_time_key b) (last_failure_time_key b) (stamp now) w,
        );
  }

  pub counted-Says :
      (w : W) (c : CircuitState) (n : ℕ) (last : Option Value)
      → Says c n last w
      → Says c (n + 1) last (r.incr (failures_key b) w).1
  counted-Says w c n last h = record {
    state = ground (
      arith,
      h.state,
      law.incr_content (state_key b) (failures_key b) w (pos n) h.failures,
      state-ne-failures b,
    );
    failures =
        ground (arith, law.incr_content (failures_key b) (failures_key b) w (pos n) h.failures);
    last_time = ground (
      arith,
      h.last_time,
      law.incr_content (last_failure_time_key b) (failures_key b) w (pos n) h.failures,
      failures-ne-last b,
    );
  }
