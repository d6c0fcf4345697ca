-- ===== src/RateLimit.antt =====
-- The local cache of the rate limiter, src/core/resilience/rate_limiter.py, `LocalRateLimitCache`.
-- A call is atomic under the lock; the time and the limit are its arguments. The update of Redis
-- that a call starts in the background is an action that it returns, since it runs later.
pub mod Window
use Prim.Native.String.{◌++◌ as str_append}
use sse_llm_streaming_servic.Base.{
  [], ℕ, ◌+◌, ◌-◌, ◌*◌, String, Bool, true, false, Option, none, some, M, Result, ok, raise, ◌>>=◌,
  ltb, leb, if◌then◌else◌, ◌||◌, ◌&&◌,
}
use sse_llm_streaming_servic.Base.Int.{ℤ, pos, negsuc, geb}
use sse_llm_streaming_servic.Base.Dict.{Dict, lookup, insert}
use sse_llm_streaming_servic.Redis.{RedisClient, Value}
use sse_llm_streaming_servic.Pool.{int_or_zero}

-- The entry of a user. `last_redis_sync` starts at 0, the epoch; times are in milliseconds.
pub record UserData : Type 0 where
  pub count : ℕ
  pub window_start : ℕ
  pub last_redis_sync : ℕ
  pub redis_count : ℤ

pub record LocalRateLimitCache : Type 0 where
  pub cache : Dict UserData
  pub redis_client : Bool

abbrev clear : LocalRateLimitCache → LocalRateLimitCache
clear l = record l { cache = [] }

-- SYNC_INTERVAL
abbrev pub sync_interval : ℕ
sync_interval = 1000

abbrev pub key : String → String
key user_id = str_append "ratelimit:local:" user_id

-- The entry that the call works on: a new one for a new user, and a fresh window for one that
-- has run out.
unfoldable pub entry : LocalRateLimitCache → String → ℕ → ℕ → UserData
entry l user_id now window = elim (lookup user_id l.cache) [
  | none ↦ record { count = 0; window_start = now; last_redis_sync = 0; redis_count = pos 0 }
  | some d ↦
      if ltb (d.window_start + window) now
      then record d { count = 0; window_start = now; redis_count = pos 0 }
      else d
]

-- `count >= limit * 0.8`, in whole numbers.
unfoldable pub should_sync : UserData → ℕ → ℕ → Bool
should_sync d now limit =
    ltb (d.last_redis_sync + sync_interval) now || leb (4 * limit) (5 * d.count)

-- `user_data["count"] + user_data["redis_count"]`
abbrev pub plus : ℕ → ℤ → ℤ
plus n (pos m) = pos (n + m)
plus n (negsuc m) = if leb (m + 1) n then pos (n - (m + 1)) else negsuc (m - n)

-- `limit - total - 1`, for a total below the limit.
abbrev pub remaining : ℕ → ℤ → ℕ
remaining limit (pos total) = limit - total - 1
remaining limit (negsuc total) = limit + total

-- What a call returns, and whether it starts the update of Redis.
pub record Answer : Type 0 where
  pub allowed : Bool
  pub left : ℕ
  pub update : Bool

abbrev pub denied : Answer
denied = record { allowed = false; left = 0; update = false }

abbrev pub store : String → UserData → LocalRateLimitCache → LocalRateLimitCache
store user_id d l = record l { cache = insert user_id d l.cache }

-- From the total on.
unfoldable pub decide : LocalRateLimitCache → String → UserData → ℕ → Answer × LocalRateLimitCache
decide l user_id d limit =
    let total_count = plus d.count d.redis_count in
    if geb total_count limit then (denied, store user_id d l) else (
      record { allowed = true; left = remaining limit total_count; update = l.redis_client },
      store user_id (record d { count = d.count + 1 }) l,
    )

module _ {W : Type 0} (r : RedisClient W) where
  -- Its exceptions count as 0, so that the handler of the call is never reached.
  unfoldable pub get_redis_count : String → W → ℤ × W
  get_redis_count user_id w =
      let (a, w') = (r.get (key user_id) >>= int_or_zero) w in
      (elim a [ ok z ↦ z | raise e ↦ pos 0 ], w')

  unfoldable pub check_and_increment :
      String → ℕ → ℕ → ℕ → LocalRateLimitCache → W → (Answer × LocalRateLimitCache) × W
  check_and_increment user_id limit window now l w =
      let d = entry l user_id now window in
      let (redis_count, w') = get_redis_count user_id w in
      let synced = record d { redis_count = redis_count; last_redis_sync = now } in
      if should_sync d now limit && l.redis_client
      then (
        if geb redis_count limit
            then (denied, store user_id synced l)
            else decide l user_id synced limit,
        w',
      )
      else (decide l user_id d limit, w)

  -- `_increment_redis_async`; the expiry of the key is Redis's.
  unfoldable pub increment_redis_async : String → W → W
  increment_redis_async user_id w = (r.incr (key user_id) w).1
