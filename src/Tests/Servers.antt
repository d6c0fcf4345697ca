-- ===== src/Tests/Servers.antt =====
-- A Redis and a cache store that keep their content in a function, and satisfy the laws.
use sse_llm_streaming_servic.Base.{
  refl, ◌≡◌, String, Option, M, none, some, Result, ok, raise, value_error, ite, string_discrete,
}
use sse_llm_streaming_servic.Base.Int.{ℤ, succ, pred}
use sse_llm_streaming_servic.Redis.{RedisClient, IsRedis, Value, number, counter}
use sse_llm_streaming_servic.Cache.Store.{Store, IsStore}

abbrev pub Server : Type 0 → Type 0
Server V = String → Option V

abbrev pub empty : {V : Type 0} → Server V
empty k = none

abbrev pub write : {V : Type 0} → String → Option V → Server V → Server V
write k o w j = ite (string_discrete k j) o (w j)

abbrev count_with : (ℤ → ℤ) → String → Server Value → Option ℤ → Result ℤ × Server Value
count_with f k w none = (raise value_error, w)
count_with f k w (some n) = (ok (f n), write k (some (number (f n))) w)

abbrev pub redis : RedisClient (Server Value)
redis = record {
  get = λ k w. (ok (w k), w);
  set = λ k v w. (ok tt, write k (some v) w);
  incr = λ k w. count_with succ k w (counter (w k));
  decr = λ k w. count_with pred k w (counter (w k));
  delete = λ k w. (ok tt, write k none w);
  sadd = λ k m w. (ok tt, w);
  srem = λ k m w. (ok tt, w);
}

abbrev pub redis_laws : IsRedis redis
redis_laws = record {
  content = λ w. w;
  get_content = λ k w. refl;
  set_ok = λ k v w. refl;
  set_content = λ j k v w. refl;
  incr_ok = λ k w n e. rw e refl;
  incr_content = λ j k w n e. rw e refl;
  decr_ok = λ k w n e. rw e refl;
  decr_content = λ j k w n e. rw e refl;
  delete_ok = λ k w. refl;
  delete_content = λ j k w. refl;
  sadd_ok = λ k m w. refl;
  srem_ok = λ k m w. refl;
  sadd_content = λ j k m w. refl;
  srem_content = λ j k m w. refl;
}

abbrev pub store : Store String (Server String)
store = record {
  get = λ k w. (ok (w k), w);
  set = λ k v ttl w. (ok tt, write k (some v) w);
  delete = λ k w. (ok tt, write k none w);
  pipeline_mgr = none;
}

pub no_pipeline :
    (f : String → M (Server String) (Option String)) (k : String) (w : Server String)
    → store.pipeline_mgr ≡ some f
    → f k w ≡ (ok (w k), w)
no_pipeline f k w e = cc e

abbrev pub store_laws : IsStore store
store_laws = record {
  content = λ w. w;
  get_content = λ k w. refl;
  pipeline_content = no_pipeline;
  set_ok = λ k v ttl w. refl;
  set_content = λ j k v ttl w. refl;
  delete_ok = λ k w. refl;
  delete_content = λ j k w. refl;
}
