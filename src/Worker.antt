-- ===== src/Worker.antt =====
-- The queue worker, src/core/resilience/queue_consumer_worker.py. What it asks of the queue, of
-- Redis and of the clock is an action; the environment may fail any of them, and decides by what
-- was done before. Worker/Loop has the endless loop. Logging is left out, and so are the metrics,
-- but for the call that raises, and cancellation.
pub mod Settling
pub mod Acks
pub mod Leaks
pub mod Loop
pub mod Retries
use Prim.Native.String.{◌++◌ as str_append}
use sse_llm_streaming_servic.Base.{
  ℕ, ◌+◌, ◌*◌, ◌^◌, String, List, [], ◌∷◌, Bool, true, false, Option, none, some, M, Exn, Result,
  ok, raise, connection_pool_exhausted, user_connection_limit, attribute_error, ◌>>=◌, ◌>>◌, pure,
  throw, try, ltb, if◌then◌else◌, min, ite, string_discrete,
}
use sse_llm_streaming_servic.Base.Dict.{Dict, lookup}
use sse_llm_streaming_servic.Redis.{RedisClient}
use sse_llm_streaming_servic.Request.{QueuedStreamingRequest, Stored, to_dict, from_dict}
use sse_llm_streaming_servic.Pool as Pool

pub data SignalType : Type 0 where
  done error heartbeat : SignalType

unfoldable pub signal_value : SignalType → String
signal_value done = "SIGNAL:DONE"
signal_value error = "SIGNAL:ERROR"
signal_value heartbeat = "SIGNAL:HEARTBEAT"

-- The settings that the modelled operations read; times are in milliseconds.
pub record WorkerConfig : Type 0 where
  pub max_retries : ℕ
  pub timeout : ℕ
  pub base_delay_ms : ℕ
  pub max_backoff_ms : ℕ

pub record QueueMessage : Type 0 where
  pub id : String
  pub payload : Stored

-- What the worker does outside itself; a list of actions has the newest first.
pub data Action : Type 0 where
  publish : String → String → Action
  acknowledge : String → Action
  produce : Stored → Action
  sleep : ℕ → Action

-- The events of a stream: it ends, it raises, or it yields an event and goes on.
pub data Stream : Type 0 where
  finished : Stream
  failed : Exn → Stream
  yields : String → Stream → Stream

-- The pool, and what was done.
pub record State (W : Type 0) : Type 0 where
  pub shared : Pool.World W
  pub actions : List Action

-- What the worker is given: whether an action fails, whether a stop was requested, the streams of
-- the orchestrator, and Python's `str` on exceptions.
pub record Environment : Type 0 where
  pub outcome : List Action → Action → Option Exn
  pub stopped : List Action → Bool
  pub stream : (query model provider user_id : String) → Stream
  pub describe : Exn → String

abbrev pub channel : String → String
channel request_id = str_append "queue:results:" request_id

-- The text of `publish_signal`.
unfoldable pub signal_text : SignalType → String → String
signal_text done message = signal_value done
signal_text error message =
    ite (string_discrete message "") (signal_value error)
      (str_append (signal_value error) (str_append ":" message))
signal_text heartbeat message = signal_value heartbeat

-- `payload.get(key, default)`
unfoldable pub payload_get : String → String → Dict String → String
payload_get key default payload = elim (lookup key payload) [ none ↦ default | some v ↦ v ]

-- In milliseconds, before the division that gives seconds.
unfoldable pub calculate_backoff_delay : WorkerConfig → ℕ → ℕ
calculate_backoff_delay c retry_count = min (c.base_delay_ms * 2 ^ retry_count) c.max_backoff_ms

unfoldable pub should_retry : WorkerConfig → QueuedStreamingRequest → Bool
should_retry c request = ltb request.retry_count c.max_retries

-- `now - enqueue_time > timeout`
unfoldable pub is_timed_out : WorkerConfig → ℕ → QueuedStreamingRequest → Bool
is_timed_out c now request = ltb (request.enqueue_time + c.timeout) now

-- An action is done, or raises.
abbrev pub performed : {W : Type 0} → Action → State W → Option Exn → Result (Unit {0}) × State W
performed a s none = (ok tt, record s { actions = a ∷ s.actions })
performed a s (some e) = (raise e, s)

module _ {W : Type 0} (r : RedisClient W) (env : Environment) (c : WorkerConfig) where
  unfoldable pub perform : Action → M (State W) (Unit {0})
  perform a s = performed a s (env.outcome s.actions a)

  abbrev pub on_pool : {A : Type 0} → M (Pool.World W) A → M (State W) A
  on_pool m s = let (a, p) = m s.shared in (a, record s { shared = p })

  unfoldable pub publish_chunk : String → String → M (State W) (Unit {0})
  publish_chunk request_id chunk = perform (publish (channel request_id) chunk)

  unfoldable pub publish_signal : String → SignalType → String → M (State W) (Unit {0})
  publish_signal request_id signal message =
      perform (publish (channel request_id) (signal_text signal message))

  abbrev pub publish_completion : String → M (State W) (Unit {0})
  publish_completion request_id = publish_signal request_id done ""

  abbrev pub publish_error : String → String → M (State W) (Unit {0})
  publish_error request_id message = publish_signal request_id error message

  -- `ConnectionManager.acquire_connection` around a body: the `finally` releases whatever
  -- happened, with the user where the pool expects the thread.
  unfoldable pub with_connection : String → String → M (State W) (Unit {0}) → M (State W) (Unit {0})
  with_connection user_id thread_id body s =
      let (a, s') = (on_pool (Pool.acquire_connection r user_id thread_id) >> body) s in
      (a, (try (on_pool (Pool.release_connection r user_id (some thread_id))) (λ _. pure tt) s').1)

  unfoldable pub handle_retry :
      QueueMessage → QueuedStreamingRequest → String → M (State W) (Unit {0})
  handle_retry message request why =
      if should_retry c request
      then perform (sleep (calculate_backoff_delay c request.retry_count))
        >> perform (produce (to_dict (record request { retry_count = request.retry_count + 1 })))
        >> perform (acknowledge message.id)
      else publish_error request.request_id (str_append "Max retries exceeded: " why)
        >> perform (acknowledge message.id)

  -- The `async for` of `_process_stream`.
  unfoldable pub publish_events : String → Stream → M (State W) (Unit {0})
  publish_events request_id finished = pure tt
  publish_events request_id (failed e) = throw e
  publish_events request_id (yields event rest) =
      publish_chunk request_id event >> publish_events request_id rest

  unfoldable pub process_stream : QueuedStreamingRequest → M (State W) (Unit {0})
  process_stream request =
      publish_events request.request_id (
        env.stream (payload_get "query" "" request.payload)
          (payload_get "model" "gpt-3.5-turbo" request.payload)
          (payload_get "provider" "fake" request.payload) request.user_id)
      >> publish_completion request.request_id

  unfoldable pub process_with_connection : QueuedStreamingRequest → M (State W) (Unit {0})
  process_with_connection request =
      with_connection request.user_id request.thread_id (process_stream request)

  -- The handlers of `process`.
  unfoldable pub recover : QueueMessage → QueuedStreamingRequest → Exn → M (State W) (Unit {0})
  recover message request connection_pool_exhausted =
      handle_retry message request
        (str_append "Connection pool exhausted: " (env.describe connection_pool_exhausted))
  recover message request user_connection_limit =
      handle_retry message request
        (str_append "Connection pool exhausted: " (env.describe user_connection_limit))
  recover message request e =
      publish_error request.request_id (str_append "Processing error: " (env.describe e))
      >> perform (acknowledge message.id)

  -- `self._metrics.record_queue_consume_success`: `MetricsCollector` has no such method.
  abbrev record_queue_consume_success : M (State W) (Unit {0})
  record_queue_consume_success = throw attribute_error

  abbrev process_request : ℕ → QueueMessage → Result QueuedStreamingRequest → M (State W) (Unit {0})
  process_request now message (raise e) = perform (acknowledge message.id)
  process_request now message (ok request) =
      if is_timed_out c now request
      then perform (acknowledge message.id)
      else try
          ((process_with_connection request >> perform (acknowledge message.id))
            >> record_queue_consume_success)
          (recover message request)

  unfoldable pub process : ℕ → QueueMessage → M (State W) (Unit {0})
  process now message = process_request now message (from_dict message.payload now)

  -- The `for` of `_consume_batch`; `now` is the time at which the message is processed.
  unfoldable pub consume_batch : (List Action → ℕ) → List QueueMessage → M (State W) (Unit {0})
  consume_batch now [] s = (ok tt, s)
  consume_batch now (message ∷ messages) s =
      if env.stopped s.actions
      then (ok tt, s)
      else (process (now s.actions) message >> consume_batch now messages) s
