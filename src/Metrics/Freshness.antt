-- ===== src/Metrics/Freshness.antt =====
-- How old an answer of the metrics cache may be.
use sse_llm_streaming_servic.Base.{
  ℕ, ◌+◌, ◌≡◌, String, none, some, M, ok, raise, Result, arith, ltb, if◌then◌else◌,
}
use sse_llm_streaming_servic.Base.Dict.{lookup, lookup-insert}
use sse_llm_streaming_servic.Metrics.{Cached, stored, fresh, get_or_compute}

module _ {A S : Type 0} (ttl : ℕ) (key : String) where
  looked_up :
      (now at done : ℕ) (a : A) (compute : M S A) (s : Cached A S)
      → lookup key s.entries ≡ some (a, at)
      → get_or_compute ttl key compute now done s ≡ (
          if ltb now (at + ttl) then (ok a, s) else stored ttl key done (compute s.inner) s.entries)
  unfolding get_or_compute fresh
  looked_up now at done a compute s e = ground arith

  stored_lem :
      (done : ℕ) (a : A) (s : Cached A S) (x : Result A × S)
      → x.0 ≡ ok a
      → let out = stored ttl key done x s.entries in
        (out.0 ≡ ok a) × (lookup key out.1.entries ≡ some (a, done))
  stored_lem done a s (ok b, w) e = ground (arith, lookup-insert key key (b, done) s.entries)
  stored_lem done a s (raise x, w) e = cc e

  -- Where the cache has no fresh entry under a key and the computation returns, its value is returned; and a
  -- later request for the key returns that value again and leaves everything as it is, as long as less
  -- than the time limit has passed since the computation, and computes and stores anew from then on.
  pub get_or_compute-again :
      (first second : M S A) (now done now2 done2 : ℕ) (a : A) (s : Cached A S)
      → fresh ttl now (lookup key s.entries) ≡ none
      → (first s.inner).0 ≡ ok a
      → let one = get_or_compute ttl key first now done s in
        (one.0 ≡ ok a)
        × (get_or_compute ttl key second now2 done2 one.1 ≡ (
            if ltb now2 (done + ttl)
            then (ok a, one.1)
            else stored ttl key done2 (second one.1.inner) one.1.entries))
  get_or_compute-again first second now done now2 done2 a s stale e =
      let computed : get_or_compute ttl key first now done s
          ≡ stored ttl key done (first s.inner) s.entries =
        (unfold get_or_compute in ground arith) in
      let facts = stored_lem done a s (first s.inner) e in
      rw computed (facts.0, looked_up now2 done done2 a second _ facts.1)
