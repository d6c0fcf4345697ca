-- ===== src/RateLimit/Window.antt =====
-- The calls that the limiter allows in one window, without Redis, among the calls of other users.
use mathlib.Core.Path.{subst}
use sse_llm_streaming_servic.Base.{
  ℕ, ◌+◌, ◌-◌, ◌≤◌, ◌≡◌, ◌≢◌, refl, sym, String, List, [], ◌∷◌, true, false, some, arith, min, leb,
  if◌then◌else◌, ite, string_discrete, All, inl, inr, Bool-cases,
}
use sse_llm_streaming_servic.Base.Int.{pos}
use sse_llm_streaming_servic.Base.Dict.{lookup, lookup-insert}
use sse_llm_streaming_servic.Redis.{RedisClient}
use sse_llm_streaming_servic.RateLimit.{
  UserData, LocalRateLimitCache, denied, entry, decide, check_and_increment, store,
}

-- A call: the user and the time.
abbrev pub Call : Type 0
Call = String × ℕ

-- How many calls of the user there are.
unfoldable pub calls_of : String → List Call → ℕ
calls_of u [] = 0
calls_of u ((j, now) ∷ calls) = ite (string_discrete j u) (calls_of u calls + 1) (calls_of u calls)

-- The user's entry counts `n` requests in the window that starts at the given time.
pub record Counted (l : LocalRateLimitCache) (u : String) (start n : ℕ) : Type 0 where
  pub alone : l.redis_client ≡ false
  pub last : ℕ
  pub found :
      lookup u l.cache
      ≡ some
          (record { count = n; window_start = start; last_redis_sync = last; redis_count = pos 0 })

module _ {W : Type 0} (r : RedisClient W) (limit window : ℕ) where
  -- How many calls of the user are allowed, of a list of calls.
  unfoldable pub allowed_of : String → List Call → LocalRateLimitCache → W → ℕ
  allowed_of u [] l w = 0
  allowed_of u ((j, now) ∷ calls) l w =
      let ((answer, l'), w') = check_and_increment r j limit window now l w in
      let rest = allowed_of u calls l' w' in
      if answer.allowed then ite (string_discrete j u) (rest + 1) rest else rest

  check_local :
      (u : String) (now : ℕ) (l : LocalRateLimitCache) (w : W)
      → l.redis_client ≡ false
      → check_and_increment r u limit window now l w ≡ (decide l u (entry l u now window) limit, w)
  unfolding check_and_increment
  check_local u now l w alone = ground arith

  -- A call of the user that the count leaves room for.
  own_allowed :
      (u : String) (now start n : ℕ) (l : LocalRateLimitCache) (w : W)
      → now ≤ start + window
      → leb limit n ≡ false
      → Counted l u start n
      → ((check_and_increment r u limit window now l w).0.0.allowed ≡ true)
        × Counted (check_and_increment r u limit window now l w).0.1 u start (n + 1)
  unfolding decide entry
  own_allowed u now start n l w in_time room h =
      let old : UserData = record {
        count = n;
        window_start = start;
        last_redis_sync = h.last;
        redis_count = pos 0;
      } in
      let new : UserData = record old { count = n + 1 } in
      let run : check_and_increment r u limit window now l w
          ≡ ((record { allowed = true; left = limit - n - 1; update = false }, store u new l), w) =
        ground (arith, check_local u now l w h.alone, h.found, h.alone) in
      rw run (
        refl,
        record {
          alone = h.alone;
          last = h.last;
          found = ground (arith, lookup-insert u u new l.cache);
        },
      )

  own_denied :
      (u : String) (now start n : ℕ) (l : LocalRateLimitCache) (w : W)
      → now ≤ start + window
      → leb limit n ≡ true
      → Counted l u start n
      → ((check_and_increment r u limit window now l w).0.0.allowed ≡ false)
        × Counted (check_and_increment r u limit window now l w).0.1 u start n
  unfolding decide entry
  own_denied u now start n l w in_time full h =
      let old : UserData = record {
        count = n;
        window_start = start;
        last_redis_sync = h.last;
        redis_count = pos 0;
      } in
      let run : check_and_increment r u limit window now l w ≡ ((denied, store u old l), w) =
        ground (arith, check_local u now l w h.alone, h.found) in
      rw run (
        refl,
        record {
          alone = h.alone;
          last = h.last;
          found = ground (arith, lookup-insert u u old l.cache);
        },
      )

  -- A call of another user.
  other :
      (u j : String) (now start n : ℕ) (l : LocalRateLimitCache) (w : W)
      → j ≢ u
      → Counted l u start n
      → Counted (check_and_increment r j limit window now l w).0.1 u start n
  unfolding decide
  other u j now start n l w apart h =
      let d : UserData = entry l j now window in
      let up : UserData = record d { count = d.count + 1 } in
      record {
        alone = ground (arith, check_local j now l w h.alone, h.alone);
        last = h.last;
        found = ground (
          arith,
          check_local j now l w h.alone,
          h.found,
          lookup-insert u j d l.cache,
          lookup-insert u j up l.cache,
        );
      }

  -- Without Redis, of the calls of a user that fall into one window as many are allowed as there
  -- are, up to what the limit leaves room for, whatever calls of other users come between them.
  pub allowed_of-window :
      (u : String) (start n : ℕ) (calls : List Call) (l : LocalRateLimitCache) (w : W)
      → n ≤ limit
      → All (λ (call : Call). call.1 ≤ start + window) calls
      → Counted l u start n
      → allowed_of u calls l w ≡ min (calls_of u calls) (limit - n)
  unfolding allowed_of calls_of
  allowed_of-window u start n [] l w small in_time h = omega arith
  allowed_of-window u start n ((j, now) ∷ calls) l w small (now_in_time, in_time) h =
      let l' = (check_and_increment r j limit window now l w).0.1 in
      let w' = (check_and_increment r j limit window now l w).1 in
      elim (string_discrete j u) [
        | yes p ↦
            let mine : Counted l j start n = subst (λ x. Counted l x start n) (sym p) h in
            elim (Bool-cases (leb limit n)) [
              | inl full ↦
                  let (refused, kept) = own_denied j now start n l w now_in_time full mine in
                  let kept_u = subst (λ x. Counted l' x start n) p kept in
                  let later = allowed_of-window u start n calls l' w' small in_time kept_u in
                  ground (arith, later, refused)
              | inr room ↦
                  let (granted, kept) = own_allowed j now start n l w now_in_time room mine in
                  let kept_u = subst (λ x. Counted l' x start (n + 1)) p kept in
                  let fits : n + 1 ≤ limit = ground arith in
                  let later = allowed_of-window u start (n + 1) calls l' w' fits in_time kept_u in
                  ground (arith, later, granted)
            ]
        | no p ↦
            let later =
              allowed_of-window u start n calls l' w' small in_time
                (other u j now start n l w p h) in
            ground (arith, later)
      ]
