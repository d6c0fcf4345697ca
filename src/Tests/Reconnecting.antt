-- ===== src/Tests/Reconnecting.antt =====
-- The worker's loop and a Redis connection at concrete rounds.
use sse_llm_streaming_servic.Base.{
  ℕ, ◌+◌, ◌*◌, length, ◌≤◌, ◌≡◌, refl, List, [], ◌∷◌, true, false, none, some, ok, raise,
  redis_error, attribute_error, if◌then◌else◌,
}
use sse_llm_streaming_servic.Base.Int.{pos}
use sse_llm_streaming_servic.Connection.{
  through_executor, executed, with_client, Driver, RedisClient, created, connect, disconnect, get,
  xlen, on_server, connect_manager, disconnect_manager,
}
use sse_llm_streaming_servic.Connection.Lifecycle.{
  Reachable, started, connected, translated, Reachable-through_executor, disconnect-with_client,
}
use sse_llm_streaming_servic.Worker.Settling.{acked}
use sse_llm_streaming_servic.Worker.Loop.{Poll, fetched, start, start-acks}
use sse_llm_streaming_servic.Tests.Servers.{redis}
use sse_llm_streaming_servic.Tests.Queue.{config, message, working, idle}

-- A batch, an exception of the queue and an empty round.
abbrev polls : List Poll
polls = ok (message ∷ []) ∷ raise redis_error ∷ ok [] ∷ []

start-acks_example :
    let out = start redis working config 5000 (λ actions. 1500) polls idle in
    (out.0 ≡ ok tt)
    × (length (acked idle.actions) ≤ length (acked out.1.actions))
    × (length (acked out.1.actions) ≤ length (acked idle.actions) + 2 * fetched polls)
start-acks_example =
    start-acks redis working config 5000 (λ actions. 1500) (λ actions n. refl) polls idle

-- A server that counts what it is sent; it knows one key.
abbrev driver : Driver ℕ
driver = record {
  construct = λ w. (ok tt, w);
  ping = λ w. (ok tt, w + 1);
  close = λ w. (ok tt, w + 1);
  disconnect = λ w. (ok tt, w + 1);
  get = λ k w. (ok (some "v"), w + 1);
  set = λ k v t nx xx w. (ok none, w + 1);
  delete = λ ks w. (ok 0, w + 1);
  exists = λ ks w. (ok 0, w + 1);
  expire = λ k t w. (ok false, w + 1);
  ttl = λ k w. (ok (pos 0), w + 1);
  hget = λ n k w. (ok none, w + 1);
  hset = λ n k v w. (ok 0, w + 1);
  hgetall = λ n w. (ok [], w + 1);
  hdel = λ n ks w. (ok 0, w + 1);
  incr = λ k w. (ok (pos 1), w + 1);
  incrby = λ k n w. (ok n, w + 1);
  decr = λ k w. (ok (pos 0), w + 1);
  lpush = λ k vs w. (ok 0, w + 1);
  rpop = λ k w. (ok none, w + 1);
  llen = λ k w. (ok 0, w + 1);
  publish = λ k m w. (ok 0, w + 1);
  xgroup_create = λ n g i m w. (ok true, w + 1);
  xlen = λ n w. (ok 5, w + 1);
  xadd = λ n f m a w. (ok "1-1", w + 1);
  xreadgroup = λ g c ss n b w. (ok [], w + 1);
  xack = λ n g ids w. (ok 0, w + 1);
}

abbrev online : RedisClient ℕ
online = (connect driver (created 0)).1

reached : Reachable driver online
reached = connected (started 0 refl) refl

is_online : online.conn_mgr.is_connected ≡ true
unfolding connect connect_manager
is_online = refl

left : (disconnect driver online).0 ≡ ok tt
unfolding connect connect_manager disconnect disconnect_manager
left = refl

-- `get` and `xlen` are such commands.
through : get driver "k" ≡ through_executor (executed (driver.get "k"))
unfolding get
through = refl

on_stream : xlen driver "s" ≡ with_client (driver.xlen "s")
unfolding xlen
on_stream = refl

Reachable-through_executor_example : through_executor (executed (driver.get "k")) online ≡ (
    if online.conn_mgr.is_connected
    then (
      translated (driver.get "k" online.server).0,
      record online { server = (driver.get "k" online.server).1 },
    )
    else (raise attribute_error, online))
Reachable-through_executor_example =
    Reachable-through_executor driver online (driver.get "k") reached

disconnect-with_client_example :
    let t = (disconnect driver online).1 in
    (through_executor (executed (driver.get "k")) t ≡ (raise attribute_error, t))
    × (with_client (driver.xlen "s") t ≡ on_server (driver.xlen "s") t)
disconnect-with_client_example =
    disconnect-with_client driver online (driver.get "k") (driver.xlen "s") reached is_online left
