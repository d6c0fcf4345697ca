-- ===== src/Connection/Lifecycle.antt =====
-- Which commands reach the server, in every state that connecting and disconnecting lead to.
use sse_llm_streaming_servic.Base.{
  ◌≡◌, refl, ◌∙◌, true, false, M, Result, ok, raise, attribute_error, cache_key_error, arith,
  if◌then◌else◌,
}
use sse_llm_streaming_servic.Connection.{
  Driver, RedisClient, created, is_redis_error, on_server, executed, through_executor, with_client,
  connect_manager, disconnect_manager, connect, disconnect,
}

-- What a command of the executor gives its caller: an exception of Redis is a `CacheKeyError`.
unfoldable pub translated : {A : Type 0} → Result A → Result A
translated (ok a) = ok a
translated (raise e) = if is_redis_error e then raise cache_key_error else raise e

module _ {W : Type 0} (redis : Driver W) where
  -- What calls of `connect` and `disconnect` lead to, whether they return or raise.
  pub data Reachable : RedisClient W → Type 0 where
    started : {s : RedisClient W} (w : W) → s ≡ created w → Reachable s
    connected : {s t : RedisClient W} → Reachable s → t ≡ (connect redis s).1 → Reachable t
    disconnected : {s t : RedisClient W} → Reachable s → t ≡ (disconnect redis s).1 → Reachable t

module _ {W : Type 0} where
  -- The facade has an executor exactly while it is connected, and then a client and a pool.
  pub record Consistent (s : RedisClient W) : Type 0 where
    pub executor : s.executor ≡ s.conn_mgr.is_connected
    pub pipeline : s.pipeline_mgr ≡ s.conn_mgr.is_connected
    pub client : s.conn_mgr.client ≡ s.conn_mgr.pool
    pub held : s.conn_mgr.is_connected ≡ true → s.conn_mgr.client ≡ true

module _ {W : Type 0} (redis : Driver W) where
  connect-Consistent : (s : RedisClient W) → Consistent s → Consistent (connect redis s).1
  unfolding connect connect_manager
  connect-Consistent s h = grind (arith, h.held)

  disconnect-Consistent : (s : RedisClient W) → Consistent s → Consistent (disconnect redis s).1
  unfolding disconnect disconnect_manager
  disconnect-Consistent s h = grind (arith, h.held)

  Reachable-Consistent : (s : RedisClient W) → Reachable redis s → Consistent s
  Reachable-Consistent s (started w e) =
      rw e (record { executor = refl; pipeline = refl; client = refl; held = λ h. h })
  Reachable-Consistent t (connected {s = s} before e) =
      rw e (connect-Consistent s (Reachable-Consistent s before))
  Reachable-Consistent t (disconnected {s = s} before e) =
      rw e (disconnect-Consistent s (Reachable-Consistent s before))

  executed_lem : {A : Type 0} (m : M W A) (w : W) → executed m w ≡ (translated (m w).0, (m w).1)
  unfolding executed translated
  executed_lem m w = ground arith

  -- In every state that connecting and disconnecting lead to, whatever fails in them: a command
  -- that runs through the executor, as `get` and `set` do, is sent to Redis if the client is
  -- connected, with an exception of Redis turned into `CacheKeyError`, and raises the
  -- `AttributeError` of `None`, and sends nothing, if not.
  pub Reachable-through_executor :
      {A : Type 0} (s : RedisClient W) (m : M W A)
      → Reachable redis s
      → through_executor (executed m) s ≡ (
          if s.conn_mgr.is_connected
          then (translated (m s.server).0, record s { server = (m s.server).1 })
          else (raise attribute_error, s))
  unfolding through_executor
  Reachable-through_executor s m reach =
      let h = Reachable-Consistent s reach in ground (arith, h.executor, executed_lem m s.server)

  disconnect_lem :
      (s : RedisClient W)
      → (disconnect redis s).0 ≡ ok tt
      → let t = (disconnect redis s).1 in
        (t.executor ≡ false) × (t.conn_mgr.client ≡ s.conn_mgr.client)
  unfolding disconnect disconnect_manager
  disconnect_lem s returned = ground arith

  -- After a connected client has disconnected, a command that runs through the executor raises and
  -- sends nothing, while a command on a stream, as `xadd`, is still sent through the client that
  -- was closed.
  pub disconnect-with_client :
      {A B : Type 0} (s : RedisClient W) (m : M W A) (on_stream : M W B)
      → Reachable redis s
      → s.conn_mgr.is_connected ≡ true
      → (disconnect redis s).0 ≡ ok tt
      → let t = (disconnect redis s).1 in
        (through_executor (executed m) t ≡ (raise attribute_error, t))
        × (with_client on_stream t ≡ on_server on_stream t)
  disconnect-with_client s m on_stream reach on returned =
      let h = Reachable-Consistent s reach in
      let fields = disconnect_lem s returned in
      (
        (unfold through_executor in rw fields.0 refl),
        (unfold with_client in rw (fields.1 ∙ h.held on) refl),
      )
