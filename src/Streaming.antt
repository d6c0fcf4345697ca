-- ===== src/Streaming.antt =====
-- `StreamingService` of src/application/services/streaming_service.py, which the streaming route
-- calls: a request takes a connection of Pool and is streamed by Orchestrator, or goes to the queue
-- through Client. The generator's chunks are collected before they are formatted, the newest first;
-- the consumer may be gone before the generator starts, or close a direct stream at any chunk.
-- Logging is left out; the handler of the queue is initialised, and pydantic takes the request.
pub mod Connections
pub mod Outcomes
use sse_llm_streaming_servic.Base.{
  ℕ, String, List, [], ◌∷◌, ◌++◌, Bool, true, false, Option, M, Exn, error, Result, ok, raise,
  connection_pool_exhausted, user_connection_limit, queue_error, ◌>>=◌, ◌>>◌, pure, throw, try,
  then_with, map, if◌then◌else◌,
}
use mathlib.Core.List.{reverse}
use sse_llm_streaming_servic.Base.Int.{ℤ, succ, pred}
use sse_llm_streaming_servic.Base.Dict.{Dict}
use sse_llm_streaming_servic.Redis.{RedisClient}
use sse_llm_streaming_servic.Pool as Pool
use sse_llm_streaming_servic.Tracker.{Traced}
use sse_llm_streaming_servic.Request.{Stored}
use sse_llm_streaming_servic.Relay.{StreamConfig, Orjson, HeartbeatManager, Poll}
use sse_llm_streaming_servic.Client as Client
use sse_llm_streaming_servic.Client.{PubSub, then_finally, request_of}
use sse_llm_streaming_servic.Orchestrator as Orchestrator
use sse_llm_streaming_servic.Orchestrator.{
  StreamRequest, SseEvent, Service, Environment, is_sse_base, except_exception,
}

-- What the generators yield, before the text is formatted.
pub data Chunk : Type 0 where
  event : SseEvent → Chunk
  done : Chunk
  error_event : Exn → Chunk
  internal_error_event : Chunk
  queued : String → Chunk
  failover_failed : Chunk

pub data ResilienceLayer : Type 0 where
  direct queue_failover : ResilienceLayer

-- What the generators themselves tell the collector of the metrics: the status of a request, and the
-- type of an error. What the orchestrator reports to that collector in its stream is left out.
pub data Metric : Type 0 where
  request_status : String → Metric
  stream_error : Option Exn → Metric

-- The service with what it calls; `active` is the gauge of the connections, which the orchestrator
-- changes too, and `reports` what the generators themselves told the metrics.
pub record State (P W R C Q : Type 0) : Type 0 where
  pub pool : Pool.World P
  pub orchestrator : Traced (Service W R)
  pub client : Client.State C Q
  pub active : ℤ
  pub reports : List Metric
  pub sent : List Chunk

-- What the client library of the queue is given, as in Client; `enabled` is the setting of the
-- failover.
pub record Failover (C Q : Type 0) : Type 0 where
  pub enabled : Bool
  pub redis : PubSub C
  pub produce : Stored → M Q String
  pub json : Orjson
  pub describe : Exn → String
  pub config : StreamConfig
  pub heartbeat : HeartbeatManager

-- A call of the service: the request, and what the consumer and the clock do in it. An abandoned
-- response is never iterated.
pub record Call : Type 0 where
  pub request : StreamRequest
  pub user_id : String
  pub payload : Dict String
  pub request_id : String
  pub now : ℕ
  pub polls : List Poll
  pub abandoned : Bool
  pub closes : List Chunk → Bool

module _ {P W R C Q : Type 0} where
  abbrev pub on_pool : {A : Type 0} → M (Pool.World P) A → M (State P W R C Q) A
  on_pool m s = let (a, p) = m s.pool in (a, record s { pool = p })

  abbrev pub sending : Chunk → State P W R C Q → Bool → Result (Unit {0}) × State P W R C Q
  sending c s true = (raise Exn.generator_exit, record s { sent = c ∷ s.sent })
  sending c s false = (ok tt, record s { sent = c ∷ s.sent })

  -- `yield`, at which the consumer may close the generator.
  unfoldable pub send : (List Chunk → Bool) → Chunk → M (State P W R C Q) (Unit {0})
  send closes c s = sending c s (closes (c ∷ s.sent))

  abbrev pub record_metric : Metric → M (State P W R C Q) (Unit {0})
  record_metric x s = (ok tt, record s { reports = x ∷ s.reports })

  abbrev pub increment_connections : State P W R C Q → State P W R C Q
  increment_connections s = record s { active = succ s.active }

  abbrev pub decrement_connections : M (State P W R C Q) (Unit {0})
  decrement_connections s = (ok tt, record s { active = pred s.active })

module _ {P W R C Q : Type 0} (r : RedisClient P) (env : Environment W R) (failover : Failover C Q)
    (call : Call) where
  -- The orchestrator, whose events this generator passes on one by one; each stream collects its own.
  -- It raises the gauge before its `try` and lowers it in its `finally`.
  unfoldable pub relay_events : M (State P W R C Q) (Unit {0})
  relay_events s =
      let observed : Environment W R = record env {
        closes = λ events. call.closes (map event events);
      } in
      let before = record s.orchestrator { state = record s.orchestrator.state { emitted = [] } } in
      let (a, after) = Orchestrator.stream observed call.request before in
      (
        a,
        record s {
          orchestrator = after;
          active = pred (succ s.active);
          sent = map event after.state.emitted;
        },
      )

  -- The two handlers.
  unfoldable pub report : Exn → M (State P W R C Q) (Unit {0})
  report e =
      if is_sse_base e
      then send call.closes (error_event e)
        >> (record_metric (request_status "error") >> record_metric (stream_error (Option.some e)))
      else send call.closes internal_error_event
        >> (record_metric (request_status "error") >> record_metric (stream_error Option.none))

  -- The body of the `try`.
  unfoldable pub direct_body : M (State P W R C Q) (Unit {0})
  direct_body = relay_events >> (send call.closes done >> record_metric (request_status "success"))

  unfoldable pub generate_stream : M (State P W R C Q) (Unit {0})
  generate_stream s =
      then_finally (except_exception (direct_body (increment_connections s)) report) (
        on_pool (Pool.release_connection r call.request.thread_id (Option.some call.user_id))
        >> decrement_connections)

  -- `queue_and_stream` of an initialised handler, whose chunks this generator passes on.
  unfoldable pub queue_and_stream : M (State P W R C Q) (Unit {0})
  queue_and_stream s =
      if failover.enabled
      then (let request =
            request_of failover.redis failover.produce call.request_id call.user_id
              call.request.thread_id call.payload call.now in
          let (a, client) =
            Client.stream failover.redis failover.produce failover.json failover.describe
              failover.config failover.heartbeat request call.polls
              (record s.client { emitted = [] }) in
          (a, record s { client = client; sent = map queued (reverse client.emitted) }))
      else (raise (error "Queue failover is disabled"), record s { sent = [] })

  unfoldable pub generate_queue_stream : M (State P W R C Q) (Unit {0})
  generate_queue_stream s =
      except_exception (queue_and_stream s)
        (λ e t. (ok tt, record t { sent = failover_failed ∷ t.sent }))

  -- The handlers of `create_stream`.
  abbrev pub fail_over : Exn → M (State P W R C Q) ResilienceLayer
  fail_over connection_pool_exhausted = pure queue_failover
  fail_over user_connection_limit = pure queue_failover
  fail_over e = throw e

  unfoldable pub create_stream : M (State P W R C Q) ResilienceLayer
  create_stream =
      try (on_pool (Pool.acquire_connection r call.user_id call.request.thread_id) >> pure direct)
        fail_over

  -- The generator that `create_stream` returns with a layer.
  unfoldable pub generator : ResilienceLayer → M (State P W R C Q) (Unit {0})
  generator direct = generate_stream
  generator queue_failover = generate_queue_stream

  -- The response runs the generator, unless its consumer is gone before.
  unfoldable pub run : ResilienceLayer → M (State P W R C Q) (Unit {0})
  run layer = if call.abandoned then pure tt else generator layer

  -- The route: a stream is created, and its response is run.
  unfoldable pub respond : M (State P W R C Q) (Unit {0})
  respond = create_stream >>= run
