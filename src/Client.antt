-- ===== src/Client.antt =====
-- The client's request to the queue: `RequestEnqueuer`, `StreamSubscriber` and
-- `StreamOrchestrator.stream` of src/core/resilience/queue_request_handler.py, around the message loop of
-- Relay. The commands of redis-py's pub/sub, the queue and the text of an exception are parameters;
-- logging is left out. The polls of the loop are given: when they are over before the loop has ended,
-- the consumer closes the generator there.
pub mod Subscriptions
use sse_llm_streaming_servic.Base.{
  ℕ, ◌+◌, String, List, [], ◌∷◌, ◌++◌, Option, none, some, M, Exn, error, Result, ok, raise, ◌>>=◌,
  ◌>>◌, pure, throw, generator_exit, then_with, if◌then◌else◌,
}
use sse_llm_streaming_servic.Base.Dict.{Dict}
use sse_llm_streaming_servic.Request.{QueuedStreamingRequest, Stored, QueuedRequestStatus, to_dict}
use sse_llm_streaming_servic.Relay.{
  StreamConfig, Orjson, HeartbeatManager, Poll, message_loop, format_error_event,
}
use sse_llm_streaming_servic.Worker.{channel}
use sse_llm_streaming_servic.Orchestrator.{except_exception}

-- The commands of a pub/sub object, which is known by its number.
pub record PubSub (W : Type 0) : Type 0 where
  pub pubsub : M W ℕ
  pub subscribe : ℕ → String → M W (Unit {0})
  pub get_message : ℕ → ℕ → M W (Option String)
  pub unsubscribe : ℕ → String → M W (Unit {0})
  pub close : ℕ → M W (Unit {0})

pub record StreamSubscriber : Type 0 where
  pub pubsub : Option ℕ
  pub channel_name : Option String

-- The server, the queue, the attempts that the metrics were told of, and the events, the oldest first.
pub record State (W Q : Type 0) : Type 0 where
  pub subscriber : StreamSubscriber
  pub server : W
  pub queue : Q
  pub attempts : ℕ
  pub emitted : List String

module _ {W Q : Type 0} where
  abbrev pub on_server : {A : Type 0} → M W A → M (State W Q) A
  on_server m s = let (a, w) = m s.server in (a, record s { server = w })

  abbrev pub on_queue : {A : Type 0} → M Q A → M (State W Q) A
  on_queue m s = let (a, q) = m s.queue in (a, record s { queue = q })

  abbrev pub named : String → M (State W Q) (Unit {0})
  named k s = (ok tt, record s { subscriber = record s.subscriber { channel_name = some k } })

  abbrev pub held : ℕ → M (State W Q) (Unit {0})
  held p s = (ok tt, record s { subscriber = record s.subscriber { pubsub = some p } })

  abbrev pub emit : List String → M (State W Q) (Unit {0})
  emit events s = (ok tt, record s { emitted = s.emitted ++ events })

  abbrev pub counted : M (State W Q) (Unit {0})
  counted s = (ok tt, record s { attempts = s.attempts + 1 })

-- `finally: await f`: what `f` raises replaces the result.
abbrev pub then_finally : {S A : Type 0} → Result A × S → M S (Unit {0}) → Result A × S
then_finally (a, s) f = then_with (f s) (λ u s1. (a, s1))

module _ {W Q : Type 0} (redis : PubSub W) where
  unfoldable pub subscribe : String → M (State W Q) (Unit {0})
  subscribe request_id = named (channel request_id) >> on_server redis.pubsub >>= λ p.
      held p >> on_server (redis.subscribe p (channel request_id))

  abbrev pub receive : Option ℕ → ℕ → M (State W Q) (Option String)
  receive none timeout = throw (error "Not subscribed. Call subscribe() first.")
  receive (some p) timeout = on_server (redis.get_message p timeout)

  unfoldable pub get_message : ℕ → M (State W Q) (Option String)
  get_message timeout s = receive s.subscriber.pubsub timeout s

  abbrev pub leave : ℕ → Option String → M (State W Q) (Unit {0})
  leave p none = pure tt
  leave p (some k) = on_server (redis.unsubscribe p k)

  abbrev pub release : Option ℕ → Option String → M (State W Q) (Unit {0})
  release none k = pure tt
  release (some p) k = leave p k >> on_server (redis.close p)

  -- The fields keep their values.
  unfoldable pub unsubscribe : M (State W Q) (Unit {0})
  unsubscribe s = release s.subscriber.pubsub s.subscriber.channel_name s

  module _ (produce : Stored → M Q String) where
    unfoldable pub enqueue : QueuedStreamingRequest → M (State W Q) QueuedStreamingRequest
    enqueue request = on_queue (produce (to_dict request)) >> counted >> pure request

    -- The request that `enqueue` builds.
    abbrev pub request_of : String → String → String → Dict String → ℕ → QueuedStreamingRequest
    request_of request_id user_id thread_id payload now = record {
      request_id = request_id;
      user_id = user_id;
      thread_id = thread_id;
      payload = payload;
      enqueue_time = now;
      retry_count = 0;
      status = QueuedRequestStatus.pending;
    }

    module _ (json : Orjson) (describe : Exn → String) (c : StreamConfig)
        (h : HeartbeatManager) where
      -- The message loop; a consumer that is no longer there closes the generator.
      abbrev pub looped : List Poll → M (State W Q) (Unit {0})
      looped polls =
          let (events, ended) = message_loop json c h polls in
          emit events >> (if ended then pure tt else throw generator_exit)

      -- The messages that the subscription gives come as the polls of the loop.
      unfoldable pub stream : QueuedStreamingRequest → List Poll → M (State W Q) (Unit {0})
      stream request polls s =
          then_finally
            (except_exception ((subscribe request.request_id >> enqueue request >> looped polls) s)
              (λ e. emit (format_error_event json (describe e) ∷ [])))
            unsubscribe
