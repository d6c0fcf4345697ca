-- ===== src/Pool.antt =====
-- The connection pool, src/core/resilience/connection_pool_manager.py. The lock makes a method
-- atomic. Logging, and the utilization that only the log shows, are left out.
pub mod Bounds
pub mod Held
pub mod Shared
use Prim.Native.String.{◌++◌ as str_append}
use sse_llm_streaming_servic.Base.{
  ℕ, ◌+◌, ◌-◌, ◌≤◌, String, List, [], ◌∷◌, Bool, true, false, Option, none, some, M, Exn, Result,
  ok, raise, value_error, connection_pool_exhausted, user_connection_limit, connection_pool_error,
  then_with, handle_with, ◌>>=◌, ◌>>◌, pure, throw, try, leb, ◌==◌, if◌then◌else◌, ite,
  string_discrete,
}
use sse_llm_streaming_servic.Base.Int.{ℤ, pos, negsuc, geb}
use sse_llm_streaming_servic.Base.Dict.{Dict, lookup, insert, remove}
use sse_llm_streaming_servic.Redis.{RedisClient, Value, word, number, stamp}

pub data ConnectionState : Type 0 where
  healthy degraded critical exhausted : ConnectionState

-- The fields of `ConnectionPoolManager`. The thresholds are the truncated products of
-- `max_connections` with 0.7 and 0.9, which `__init__` computes with floats.
pub record ConnectionPoolManager : Type 0 where
  pub max_connections : ℕ
  pub max_per_user : ℕ
  pub connected : Bool
  pub local_total_count : ℕ
  pub local_user_counts : Dict ℕ
  pub local_connections : List String
  pub degraded_threshold : ℕ
  pub critical_threshold : ℕ

-- The manager and the Redis server that it may share.
pub record World (W : Type 0) : Type 0 where
  pub pool : ConnectionPoolManager
  pub server : W

abbrev pub key_total : String
key_total = "connection_pool:total"

abbrev pub key_connections : String
key_connections = "connection_pool:connections"

unfoldable pub user_key : String → String
user_key user_id = str_append "connection_pool:user:" user_id

-- `set.add` and `set.discard`
unfoldable pub discard : String → List String → List String
discard t [] = []
discard t (x ∷ xs) = ite (string_discrete x t) (discard t xs) (x ∷ discard t xs)

abbrev pub add : String → List String → List String
add t xs = t ∷ discard t xs

-- `int(count) if count else 0`, for a text that Redis returned.
unfoldable pub int_or_zero : {S : Type 0} → Option Value → M S ℤ
int_or_zero none = pure (pos 0)
int_or_zero (some (number n)) = pure n
int_or_zero (some (word t)) = ite (string_discrete t "") (pure (pos 0)) (throw value_error)
int_or_zero (some (stamp t)) = throw value_error

-- The test `int(count) if count else 0 <= 0`, as Python groups it: `0 <= 0` is its second branch,
-- and an integer that is not 0 counts as true.
unfoldable pub cleans_up : ℤ → Bool
cleans_up (pos n) = if n == 0 then leb 0 0 else true
cleans_up (negsuc n) = true

-- `self._local_user_counts.get(user_id, 0)`
unfoldable pub local_user_count : ConnectionPoolManager → String → ℕ
local_user_count p user_id = elim (lookup user_id p.local_user_counts) [ none ↦ 0 | some n ↦ n ]

-- The fallback of `_increment_counts`.
unfoldable pub increment_local : String → String → ConnectionPoolManager → ConnectionPoolManager
increment_local user_id thread_id p = record p {
  local_total_count = p.local_total_count + 1;
  local_user_counts = insert user_id (local_user_count p user_id + 1) p.local_user_counts;
  local_connections = add thread_id p.local_connections;
}

-- The user's part of the fallback of `_decrement_counts`; an empty user counts as none.
unfoldable pub decrement_user : Option String → Dict ℕ → Dict ℕ
decrement_user none d = d
decrement_user (some user_id) d = ite (string_discrete user_id "") d (elim (lookup user_id d) [
  | none ↦ d
  | some n ↦ if n - 1 == 0 then remove user_id d else insert user_id (n - 1) d
])

unfoldable pub decrement_local :
    Option String → String → ConnectionPoolManager → ConnectionPoolManager
decrement_local user_id thread_id p = record p {
  local_total_count = p.local_total_count - 1;
  local_user_counts = decrement_user user_id p.local_user_counts;
  local_connections = discard thread_id p.local_connections;
}

-- The handlers of `acquire_connection`: its own two errors pass, any other is wrapped.
unfoldable pub wrap_error : Exn → Exn
wrap_error connection_pool_exhausted = connection_pool_exhausted
wrap_error user_connection_limit = user_connection_limit
wrap_error _ = connection_pool_error

-- The thresholds of `get_pool_state`.
unfoldable pub classify : ConnectionPoolManager → ℤ → ConnectionState
classify p total_count =
    if geb total_count p.max_connections
    then exhausted
    else (if geb total_count p.critical_threshold
        then critical
        else (if geb total_count p.degraded_threshold then degraded else healthy))

module _ {W : Type 0} where
  abbrev pub on_server : {A : Type 0} → M W A → M (World W) A
  on_server m s = let (a, w) = m s.server in (a, record s { server = w })

module _ {W : Type 0} (r : RedisClient W) where
  unfoldable pub get_total_count : M (World W) ℤ
  get_total_count s =
      if s.pool.connected
      then try (on_server (r.get key_total >>= int_or_zero))
          (λ _ s'. (ok (pos s'.pool.local_total_count), s')) s
      else (ok (pos s.pool.local_total_count), s)

  unfoldable pub get_user_count : String → M (World W) ℤ
  get_user_count user_id s =
      if s.pool.connected
      then try (on_server (r.get (user_key user_id) >>= int_or_zero))
          (λ _ s'. (ok (pos (local_user_count s'.pool user_id)), s')) s
      else (ok (pos (local_user_count s.pool user_id)), s)

  abbrev increment_fallback : String → String → M (World W) (Unit {0})
  increment_fallback user_id thread_id s =
      (ok tt, record s { pool = increment_local user_id thread_id s.pool })

  unfoldable pub increment_counts : String → String → M (World W) (Unit {0})
  increment_counts user_id thread_id s =
      if s.pool.connected
      then try
          (on_server
            (r.incr key_total >> (r.incr (user_key user_id) >> r.sadd key_connections thread_id)))
          (λ _. increment_fallback user_id thread_id) s
      else increment_fallback user_id thread_id s

  abbrev decrement_fallback : Option String → String → M (World W) (Unit {0})
  decrement_fallback user_id thread_id s =
      (ok tt, record s { pool = decrement_local user_id thread_id s.pool })

  -- The user's key: decremented, and then deleted if the test says so.
  unfoldable pub decrement_user_key : Option String → M W (Unit {0})
  decrement_user_key none = pure tt
  decrement_user_key (some user_id) = ite (string_discrete user_id "") (pure tt) (
      r.decr (user_key user_id) >>= λ count.
      if cleans_up count then r.delete (user_key user_id) else pure tt)

  unfoldable pub decrement_counts : Option String → String → M (World W) (Unit {0})
  decrement_counts user_id thread_id s =
      if s.pool.connected
      then try
          (on_server
            (r.decr key_total >> (decrement_user_key user_id >> r.srem key_connections thread_id)))
          (λ _. decrement_fallback user_id thread_id) s
      else decrement_fallback user_id thread_id s

  unfoldable pub get_pool_state : M (World W) ConnectionState
  get_pool_state s =
      handle_with (then_with (get_total_count s) λ total_count. pure (classify s.pool total_count))
        (λ _. pure healthy)

  -- The body of the `try` of `acquire_connection`: the guards, and the reservation.
  unfoldable pub reserve : String → String → M (World W) Bool
  reserve user_id thread_id s = then_with (get_total_count s) λ total_count.
      (get_user_count user_id >>= λ user_count s'.
      if geb total_count s'.pool.max_connections
      then (raise connection_pool_exhausted, s')
      else (if geb user_count s'.pool.max_per_user
          then (raise user_connection_limit, s')
          else (increment_counts user_id thread_id >> (get_pool_state >> pure true)) s'))

  unfoldable pub acquire_connection : String → String → M (World W) Bool
  acquire_connection user_id thread_id = try (reserve user_id thread_id) (λ e. throw (wrap_error e))

  -- An exception is logged and goes no further.
  unfoldable pub release_connection : String → Option String → M (World W) (Unit {0})
  release_connection thread_id user_id =
      try (decrement_counts user_id thread_id >> (get_total_count >> (get_pool_state >> pure tt)))
        (λ _. pure tt)
