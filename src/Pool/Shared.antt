-- ===== src/Pool/Shared.antt =====
-- The pool on a Redis that answers, shared by several instances.
use sse_llm_streaming_servic.Base.{
  ◌≡◌, ◌≢◌, refl, String, true, Option, none, some, ok, raise, arith, string_discrete, inl, inr,
  Result-cases,
}
use sse_llm_streaming_servic.Base.Int.{ℤ, pos, negsuc, pred}
use sse_llm_streaming_servic.Redis.{RedisClient, IsRedis, Value, number, word, stamp, counter}
use sse_llm_streaming_servic.Pool.{
  World, key_total, key_connections, user_key, cleans_up, decrement_user_key, decrement_counts,
  get_total_count, get_pool_state, get_user_count, release_connection, int_or_zero,
}

cleans_up_always : (count : ℤ) → cleans_up count ≡ true
unfolding cleans_up
cleans_up_always (pos n) = ground arith
cleans_up_always (negsuc n) = refl

module _ {W : Type 0} (r : RedisClient W) (law : IsRedis r) where
  decrement_user_key_lem :
      (u : String) (w : W) (m : ℤ)
      → u ≢ ""
      → counter (law.content w (user_key u)) ≡ some m
      → ((decrement_user_key r (some u) w).0 ≡ ok tt)
        × (law.content (decrement_user_key r (some u) w).1 (user_key u) ≡ none)
  unfolding decrement_user_key
  decrement_user_key_lem u w m ne count =
      let (w1, dec_eq) : (w1 : W) × (r.decr (user_key u) w ≡ (ok (pred m), w1)) =
        ((r.decr (user_key u) w).1, ground (arith, law.decr_ok (user_key u) w m count)) in
      let run : decrement_user_key r (some u) w ≡ r.delete (user_key u) w1 =
        ground (arith, cleans_up_always (pred m)) in
      rw run (
        law.delete_ok (user_key u) w1,
        ground (arith, law.delete_content (user_key u) (user_key u) w1),
      )

  int_or_zero_state : (v : Option Value) (w : W) → (int_or_zero v w).1 ≡ w
  unfolding int_or_zero
  int_or_zero_state none w = refl
  int_or_zero_state (some (number n)) w = refl
  int_or_zero_state (some (word t)) w = ground arith
  int_or_zero_state (some (stamp t)) w = refl

  -- A read of the total that Redis does not answer with a number falls back on the local counter.
  read_total : World W → ℤ
  read_total s = elim (int_or_zero (law.content s.server key_total) s.server).0 [
    | ok z ↦ z
    | raise e ↦ pos s.pool.local_total_count
  ]

  get_total_count_shared :
      (s : World W) → s.pool.connected ≡ true → get_total_count r s ≡ (ok (read_total s), s)
  unfolding get_total_count read_total
  get_total_count_shared s on =
      let same = int_or_zero_state (law.content s.server key_total) s.server in
      let got = law.get_content key_total s.server in
      elim (Result-cases (int_or_zero (law.content s.server key_total) s.server).0) [
        | inl (z, e) ↦ ground (arith, got)
        | inr (e, q) ↦ ground (arith, got)
      ]

  release_run :
      (u t : String) (s : World W) (n m : ℤ)
      → s.pool.connected ≡ true
      → u ≢ ""
      → counter (law.content s.server key_total) ≡ some n
      → counter (law.content s.server (user_key u)) ≡ some m
      → (w : W) × (law.content w (user_key u) ≡ none)
        × (release_connection r t (some u) s ≡ (ok tt, record s { server = w }))
  unfolding release_connection decrement_counts get_pool_state
  release_run u t s n m on ne total count =
      let (w1, dec_eq) : (w1 : W) × (r.decr key_total s.server ≡ (ok (pred n), w1)) =
        ((r.decr key_total s.server).1, ground (arith, law.decr_ok key_total s.server n total)) in
      let (m', count') : (m' : ℤ) × (counter (law.content w1 (user_key u)) ≡ some m') =
        elim (string_discrete key_total (user_key u)) [
          | yes p ↦ (pred n, ground (arith, law.decr_content (user_key u) key_total s.server n))
          | no p ↦ (m, ground (arith, law.decr_content (user_key u) key_total s.server n))
        ] in
      let (done, gone) = decrement_user_key_lem u w1 m' ne count' in
      let w2 = (decrement_user_key r (some u) w1).1 in
      let w3 = (r.srem key_connections t w2).1 in
      let s3 : World W = record s { server = w3 } in
      (
        w3,
        ground (arith, law.srem_content (user_key u) key_connections t w2),
        ground (arith, law.srem_ok key_connections t w2, get_total_count_shared s3 on),
      )

  -- On a Redis that answers, with numbers under the two counters, a release by a named user
  -- returns normally and leaves a count of 0 for that user, however many connections the user
  -- still holds.
  pub release_connection-get_user_count :
      (u t : String) (s : World W) (n m : ℤ)
      → s.pool.connected ≡ true
      → u ≢ ""
      → counter (law.content s.server key_total) ≡ some n
      → counter (law.content s.server (user_key u)) ≡ some m
      → ((release_connection r t (some u) s).0 ≡ ok tt)
        × ((get_user_count r u (release_connection r t (some u) s).1).0 ≡ ok (pos 0))
  unfolding get_user_count int_or_zero
  release_connection-get_user_count u t s n m on ne total count =
      let (w, gone, run) = release_run u t s n m on ne total count in
      rw run (refl, ground (arith, law.get_content (user_key u) w))
