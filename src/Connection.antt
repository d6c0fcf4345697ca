-- ===== src/Connection.antt =====
-- `ConnectionManager`, `OperationExecutor` and `RedisClient` of
-- src/infrastructure/cache/redis_client.py; the batching of its commands is Pipeline. The client of
-- redis-py is a parameter; logging, tracking and the health monitor are left out.
pub mod Lifecycle
use sse_llm_streaming_servic.Base.{
  ℕ, String, List, Bool, true, false, Option, none, some, ◌&&◌, M, Exn, Result, ok, raise,
  redis_error, connect_error, timeout_error, cache_connection_error, cache_key_error,
  attribute_error, runtime_error, ◌>>=◌, ◌>>◌, pure, throw, try, if◌then◌else◌,
}
use sse_llm_streaming_servic.Base.Int.{ℤ}
use sse_llm_streaming_servic.Base.Dict.{Dict}

-- The construction of the pool and the client, and the commands that the code calls on them.
pub record Driver (W : Type 0) : Type 0 where
  pub construct : M W (Unit {0})
  pub ping : M W (Unit {0})
  pub close : M W (Unit {0})
  pub disconnect : M W (Unit {0})
  pub get : String → M W (Option String)
  pub set : String → String → Option ℕ → Bool → Bool → M W (Option Bool)
  pub delete : List String → M W ℕ
  pub exists : List String → M W ℕ
  pub expire : String → ℕ → M W Bool
  pub ttl : String → M W ℤ
  pub hget : String → String → M W (Option String)
  pub hset : String → String → String → M W ℕ
  pub hgetall : String → M W (Dict String)
  pub hdel : String → List String → M W ℕ
  pub incr : String → M W ℤ
  pub incrby : String → ℤ → M W ℤ
  pub decr : String → M W ℤ
  pub lpush : String → List String → M W ℕ
  pub rpop : String → M W (Option String)
  pub llen : String → M W ℕ
  pub publish : String → String → M W ℕ
  pub xgroup_create : String → String → String → Bool → M W Bool
  pub xlen : String → M W ℕ
  pub xadd : String → Dict String → Option ℕ → Bool → M W String
  pub xreadgroup :
      String
      → String
      → Dict String
      → Option ℕ
      → Option ℕ
      → M W (List (String × List (String × Dict String)))
  pub xack : String → String → List String → M W ℕ

-- Which of the fields hold an object.
pub record ConnectionManager : Type 0 where
  pub pool : Bool
  pub client : Bool
  pub is_connected : Bool

pub record RedisClient (W : Type 0) : Type 0 where
  pub conn_mgr : ConnectionManager
  pub pipeline_mgr : Bool
  pub executor : Bool
  pub server : W

-- A new client.
abbrev pub created : {W : Type 0} → W → RedisClient W
created w = record {
  conn_mgr = record { pool = false; client = false; is_connected = false };
  pipeline_mgr = false;
  executor = false;
  server = w;
}

-- The classes of redis-py: a lost connection and a timeout are kinds of `RedisError`.
unfoldable pub is_redis_error : Exn → Bool
is_redis_error redis_error = true
is_redis_error connect_error = true
is_redis_error timeout_error = true
is_redis_error _ = false

unfoldable pub is_connection_error : Exn → Bool
is_connection_error connect_error = true
is_connection_error timeout_error = true
is_connection_error _ = false

module _ {W : Type 0} where
  abbrev pub on_server : {A : Type 0} → M W A → M (RedisClient W) A
  on_server m s = let (a, w) = m s.server in (a, record s { server = w })

  abbrev set_conn : (ConnectionManager → ConnectionManager) → M (RedisClient W) (Unit {0})
  set_conn f s = (ok tt, record s { conn_mgr = f s.conn_mgr })

  -- The handlers of `OperationExecutor`.
  unfoldable pub executed : {A : Type 0} → M W A → M W A
  executed m = try m (λ e. if is_redis_error e then throw cache_key_error else throw e)

  -- `self._executor.f(…)`: without an executor the attribute is looked up on `None`.
  unfoldable pub through_executor : {A : Type 0} → M W A → M (RedisClient W) A
  through_executor m s = if s.executor then on_server m s else (raise attribute_error, s)

  -- `client = self._conn_mgr.get_client()`, and the error if there is none.
  unfoldable pub with_client : {A : Type 0} → M W A → M (RedisClient W) A
  with_client m s = if s.conn_mgr.client then on_server m s else (raise runtime_error, s)

module _ {W : Type 0} (redis : Driver W) where
  -- `ConnectionManager.connect`: the pool and the client are set before the ping.
  unfoldable pub connect_manager : M (RedisClient W) (Unit {0})
  connect_manager s =
      if s.conn_mgr.is_connected && s.conn_mgr.client
      then (ok tt, s)
      else try
          (on_server redis.construct
            >> (set_conn (λ c. record c { pool = true; client = true })
                >> (on_server redis.ping >> set_conn (λ c. record c { is_connected = true }))))
          (λ e. if is_connection_error e then throw cache_connection_error else throw e) s

  abbrev close_client : M (RedisClient W) (Unit {0})
  close_client s = if s.conn_mgr.client then on_server redis.close s else (ok tt, s)

  abbrev disconnect_pool : M (RedisClient W) (Unit {0})
  disconnect_pool s = if s.conn_mgr.pool then on_server redis.disconnect s else (ok tt, s)

  -- `ConnectionManager.disconnect`: the fields keep the client and the pool.
  unfoldable pub disconnect_manager : M (RedisClient W) (Unit {0})
  disconnect_manager =
      close_client >> (disconnect_pool >> set_conn (λ c. record c { is_connected = false }))

  unfoldable pub connect : M (RedisClient W) (Unit {0})
  connect = connect_manager >> λ s. (ok tt, record s { pipeline_mgr = true; executor = true })

  unfoldable pub disconnect : M (RedisClient W) (Unit {0})
  disconnect =
      disconnect_manager >> λ s. (ok tt, record s { pipeline_mgr = false; executor = false })

  unfoldable pub ping : M (RedisClient W) Bool
  ping s =
      if s.conn_mgr.client && s.conn_mgr.is_connected
      then try (on_server redis.ping >> pure true)
          (λ e. if is_connection_error e then pure false else throw e) s
      else (ok false, s)

  -- `result is not None`
  abbrev was_set : Option Bool → Bool
  was_set none = false
  was_set (some b) = true

  unfoldable pub get : String → M (RedisClient W) (Option String)
  get key = through_executor (executed (redis.get key))

  unfoldable pub set : String → String → Option ℕ → Bool → Bool → M (RedisClient W) Bool
  set key value ttl nx xx =
      through_executor
        (executed (redis.set key value ttl nx xx >>= λ result. pure (was_set result)))

  unfoldable pub delete : List String → M (RedisClient W) ℕ
  delete keys = through_executor (executed (redis.delete keys))

  unfoldable pub exists : List String → M (RedisClient W) ℕ
  exists keys = through_executor (executed (redis.exists keys))

  unfoldable pub expire : String → ℕ → M (RedisClient W) Bool
  expire key ttl = through_executor (executed (redis.expire key ttl))

  unfoldable pub ttl : String → M (RedisClient W) ℤ
  ttl key = through_executor (executed (redis.ttl key))

  unfoldable pub hget : String → String → M (RedisClient W) (Option String)
  hget name key = through_executor (executed (redis.hget name key))

  unfoldable pub hset : String → String → String → M (RedisClient W) ℕ
  hset name key value = through_executor (executed (redis.hset name key value))

  unfoldable pub hgetall : String → M (RedisClient W) (Dict String)
  hgetall name = through_executor (executed (redis.hgetall name))

  unfoldable pub hdel : String → List String → M (RedisClient W) ℕ
  hdel name keys = through_executor (executed (redis.hdel name keys))

  unfoldable pub incr : String → M (RedisClient W) ℤ
  incr key = through_executor (executed (redis.incr key))

  unfoldable pub incrby : String → ℤ → M (RedisClient W) ℤ
  incrby key amount = through_executor (executed (redis.incrby key amount))

  unfoldable pub decr : String → M (RedisClient W) ℤ
  decr key = through_executor (executed (redis.decr key))

  unfoldable pub lpush : String → List String → M (RedisClient W) ℕ
  lpush key values = through_executor (executed (redis.lpush key values))

  unfoldable pub rpop : String → M (RedisClient W) (Option String)
  rpop key = through_executor (executed (redis.rpop key))

  unfoldable pub llen : String → M (RedisClient W) ℕ
  llen key = through_executor (executed (redis.llen key))

  unfoldable pub publish : String → String → M (RedisClient W) ℕ
  publish channel message = through_executor (executed (redis.publish channel message))

  unfoldable pub xgroup_create : String → String → String → Bool → M (RedisClient W) Bool
  xgroup_create name groupname id mkstream =
      with_client (redis.xgroup_create name groupname id mkstream)

  unfoldable pub xlen : String → M (RedisClient W) ℕ
  xlen name = with_client (redis.xlen name)

  unfoldable pub xadd : String → Dict String → Option ℕ → Bool → M (RedisClient W) String
  xadd name fields maxlen approximate = with_client (redis.xadd name fields maxlen approximate)

  unfoldable pub xreadgroup :
      String
      → String
      → Dict String
      → Option ℕ
      → Option ℕ
      → M (RedisClient W) (List (String × List (String × Dict String)))
  xreadgroup groupname consumername streams count block =
      with_client (redis.xreadgroup groupname consumername streams count block)

  unfoldable pub xack : String → String → List String → M (RedisClient W) ℕ
  xack name groupname ids = with_client (redis.xack name groupname ids)
