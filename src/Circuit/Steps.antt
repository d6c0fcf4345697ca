-- ===== src/Circuit/Steps.antt =====
-- The three keys after a recorded success and after a recorded failure.
use sse_llm_streaming_servic.Base.{
  ℕ, ◌+◌, ◌≡◌, refl, sym, true, Option, some, ok, arith, leb, Bool-cases, inl, inr, ◌⊎◌,
}
use mathlib.Core.Path.{subst}
use sse_llm_streaming_servic.Base.Int.{pos}
use sse_llm_streaming_servic.Redis.{RedisClient, IsRedis, Value, word, number, stamp}
use sse_llm_streaming_servic.Circuit.{
  DistributedCircuitBreaker, CircuitState, closed, is_open, value, state_key, failures_key,
  last_failure_time_key, record_success, record_failure, trip,
}
use sse_llm_streaming_servic.Circuit.States.{
  circuit, circuit-open, circuit-closed, closed_is_closed, open_not_closed, open_is_open,
  closed_not_open, Says, get_state_lem, set_state_lem, written-Says, reset-Says, stamped-Says,
  counted-Says,
}

module _ {W : Type 0} (r : RedisClient W) (law : IsRedis r) (b : DistributedCircuitBreaker) where
  open law use {content}

  pub success-Says :
      (w : W) (c : CircuitState) (n : ℕ) (last : Option Value)
      → b.connected ≡ true
      → (c ≡ closed) ⊎ (c ≡ is_open)
      → Says r law b c n last w
      → Says r law b closed 0 last (record_success r b w).1
  unfolding record_success
  success-Says w c n last on (inl k) h =
      let ran : (record_success r b w).1 ≡ (r.set (failures_key b) (number (pos 0)) w).1 = ground (
        arith,
        get_state_lem r law b w c on h.state,
        closed_is_closed,
        law.set_ok (failures_key b) (number (pos 0)) w,
      ) in
      subst (Says r law b closed 0 last) (sym ran)
        (reset-Says r law b w closed n last (subst (λ x. Says r law b x n last w) k h))
  success-Says w c n last on (inr k) h =
      let w1 = (r.set (state_key b) (word (value closed)) w).1 in
      let ran : (record_success r b w).1 ≡ (r.set (failures_key b) (number (pos 0)) w1).1 = ground (
        arith,
        get_state_lem r law b w c on h.state,
        open_not_closed,
        set_state_lem r law b w closed on,
        law.set_ok (failures_key b) (number (pos 0)) w1,
      ) in
      subst (Says r law b closed 0 last) (sym ran)
        (reset-Says r law b w1 closed n last (written-Says r law b w c closed n last h))

  -- Step 3 of a failure: from the threshold on the circuit is open, and it stays so.
  pub trip-Says :
      (w : W) (n : ℕ) (last : Option Value)
      → b.connected ≡ true
      → Says r law b (circuit b.max_failures n) (n + 1) last w
      → (w' : W) × (trip r b (pos (n + 1)) w ≡ (ok tt, w'))
        × Says r law b (circuit b.max_failures (n + 1)) (n + 1) last w'
  unfolding trip
  trip-Says w n last on h = elim (Bool-cases (leb b.max_failures (n + 1))) [
    | inr below ↦ (
      w,
      rw below refl,
      rw (circuit-closed b.max_failures (n + 1) below) (
          subst (λ c. Says r law b c (n + 1) last w)
            (circuit-closed b.max_failures n (ground arith)) h),
    )
    | inl reached ↦ elim (Bool-cases (leb b.max_failures n)) [
      | inl already ↦
          let kept =
            subst (λ c. Says r law b c (n + 1) last w) (circuit-open b.max_failures n already) h in
          (
            w,
            ground (arith, get_state_lem r law b w is_open on kept.state, open_is_open),
            rw (circuit-open b.max_failures (n + 1) reached) kept,
          )
      | inr first ↦
          let kept =
            subst (λ c. Says r law b c (n + 1) last w) (circuit-closed b.max_failures n first) h in
          (
            (r.set (state_key b) (word (value is_open)) w).1,
            ground (
              arith,
              get_state_lem r law b w closed on kept.state,
              closed_not_open,
              set_state_lem r law b w is_open on,
            ),
            rw (circuit-open b.max_failures (n + 1) reached)
                (written-Says r law b w closed is_open (n + 1) last kept),
          )
    ]
  ]

  pub failure-Says :
      (w : W) (n now : ℕ) (last : Option Value)
      → b.connected ≡ true
      → Says r law b (circuit b.max_failures n) n last w
      → Says r law b
          (circuit b.max_failures (n + 1))
          (n + 1)
          (some (stamp now))
          (record_failure r b now w).1
  unfolding record_failure
  failure-Says w n now last on h =
      let w1 = (r.set (last_failure_time_key b) (stamp now) w).1 in
      let w2 = (r.incr (failures_key b) w1).1 in
      let c = circuit b.max_failures n in
      let h1 = stamped-Says r law b w c n now last h in
      let (w3, tripped, says) =
        trip-Says w2 n (some (stamp now)) on (counted-Says r law b w1 c n (some (stamp now)) h1) in
      let ran : (record_failure r b now w).1 ≡ w3 = ground (
        arith,
        law.set_ok (last_failure_time_key b) (stamp now) w,
        law.incr_ok (failures_key b) w1 (pos n) h1.failures,
        tripped,
      ) in
      subst (Says r law b (circuit b.max_failures (n + 1)) (n + 1) (some (stamp now))) (sym ran)
        says
