-- ===== src/Streaming/Connections.antt =====
-- The connections that the streams of the service take from the pool and give back.
use sse_llm_streaming_servic.Base.{◌≡◌, String, List, Bool, Result, ok, raise, if◌then◌else◌}
use sse_llm_streaming_servic.Redis.{RedisClient}
use sse_llm_streaming_servic.Pool as Pool
use sse_llm_streaming_servic.Pool.Held.{after_verdict}
use sse_llm_streaming_servic.Orchestrator.{Environment}
use sse_llm_streaming_servic.Streaming.{
  State, Failover, Call, direct, queue_failover, ResilienceLayer,
}

-- The layer that a verdict of the pool leads to.
unfoldable pub layer_of : Result Bool → ResilienceLayer
layer_of (ok a) = direct
layer_of (raise e) = queue_failover

module _ {P W R C Q : Type 0} where
  -- The pool and the gauge are the same.
  abbrev Apart : State P W R C Q → State P W R C Q → Type 0
  Apart s t = (t.pool ≡ s.pool) × (t.active ≡ s.active)

module _ {P W R C Q : Type 0} (r : RedisClient P) (env : Environment W R) (failover : Failover C Q)
    (call : Call) where
  -- The connections that are held after a response.
  unfoldable pub left_held : Result Bool → List String → List String
  left_held v held = if call.abandoned then after_verdict v call.user_id held else held
