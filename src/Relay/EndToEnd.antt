-- ===== src/Relay/EndToEnd.antt =====
-- From the worker to the client, over the request's result channel.
use mathlib.Core.List.{append_assoc, append-nil}
use Prim.Native.String.{◌++◌ as str_append, len}
use text.Mathlib.TextLemmas.{append_assoc as str_append_assoc}
use sse_llm_streaming_servic.Base.{
  ℕ, ◌+◌, ◌≤◌, ◌≡◌, refl, sym, ap, ◌∙◌, String, List, [], ◌∷◌, ◌++◌, true, none, ok, arith, All,
  ite, if_neg, string_discrete, Exn, Result, raise, ◌≢◌, Result-cases, inl, inr,
  connection_pool_exhausted, user_connection_limit,
}
use sse_llm_streaming_servic.Redis.{RedisClient}
use sse_llm_streaming_servic.Request.{QueuedStreamingRequest, from_dict}
use sse_llm_streaming_servic.Pool.Held.{Counts, verdict}
use sse_llm_streaming_servic.Worker.{
  State, Action, publish, acknowledge, produce, sleep, Environment, WorkerConfig, QueueMessage,
  Stream, finished, failed, yields, channel, process, signal_text, signal_value, error,
}
use sse_llm_streaming_servic.Worker.Retries.{
  published, ending, stream_of, complaint, process-actions, process-failed,
}
use sse_llm_streaming_servic.Relay.{
  StreamConfig, Orjson, HeartbeatManager, Poll, message_loop, process_message, format_error_event,
  remove_all,
}
use sse_llm_streaming_servic.Relay.Delivery.{
  arrivals, without_pings, IsPlain, message_loop-relays, process_message-done,
  process_message-error, format_error_event-without_pings, apart_by_prefix,
}

-- What was published on a channel, oldest first.
unfoldable pub transcript : String → List Action → List String
transcript k [] = []
transcript k (publish j t ∷ actions) =
    ite (string_discrete j k) (transcript k actions ++ t ∷ []) (transcript k actions)
transcript k (acknowledge id ∷ actions) = transcript k actions
transcript k (produce q ∷ actions) = transcript k actions
transcript k (sleep t ∷ actions) = transcript k actions

unfoldable pub texts : Stream → List String
texts finished = []
texts (failed e) = []
texts (yields event rest) = event ∷ texts rest

transcript-publish :
    (k t : String) (actions : List Action)
    → transcript k (publish k t ∷ actions) ≡ transcript k actions ++ t ∷ []
unfolding transcript
transcript-publish k t actions = ground arith

transcript-published :
    (k : String) (events : Stream) (actions : List Action)
    → transcript k (published k events actions) ≡ transcript k actions ++ texts events
unfolding published texts
transcript-published k finished actions = sym (append-nil (transcript k actions))
transcript-published k (failed e) actions = sym (append-nil (transcript k actions))
transcript-published k (yields event rest) actions =
    rw (transcript-published k rest (publish k event ∷ actions), transcript-publish k event actions)
      (append_assoc (transcript k actions) (event ∷ []) (texts rest))

-- The message that ends a stream on its channel, and what the client is told by it.
unfoldable pub closing : (Exn → String) → Result (Unit {0}) → String
closing describe (ok u) = "SIGNAL:DONE"
closing describe (raise e) =
    str_append "SIGNAL:ERROR:" (str_append "Processing error: " (describe e))

unfoldable pub notice : Orjson → (Exn → String) → Result (Unit {0}) → List String
notice json describe (ok u) = []
notice json describe (raise e) =
    let message = closing describe (raise e) in
    format_error_event json (remove_all (len message) message "SIGNAL:ERROR:") ∷ []

closing-stops :
    (json : Orjson) (describe : Exn → String) (x : Result (Unit {0}))
    → process_message json (closing describe x) ≡ (notice json describe x, true)
unfolding closing notice
closing-stops json describe (ok u) = process_message-done json
closing-stops json describe (raise e) = process_message-error json _

notice-without_pings :
    (json : Orjson) (describe : Exn → String) (x : Result (Unit {0}))
    → without_pings (notice json describe x) ≡ notice json describe x
unfolding notice without_pings
notice-without_pings json describe (ok u) = refl
notice-without_pings json describe (raise e) = format_error_event-without_pings json _

error_text :
    (message : String)
    → signal_text error (str_append "Processing error: " message)
      ≡ str_append "SIGNAL:ERROR:" (str_append "Processing error: " message)
unfolding signal_text signal_value
error_text message =
    if_neg (string_discrete (str_append "Processing error: " message) "")
      (apart_by_prefix "Processing error: " message "" refl) _ _
    ∙ sym (str_append_assoc "SIGNAL:ERROR" ":" (str_append "Processing error: " message))

module _ {W : Type 0} (r : RedisClient W) (env : Environment) (c : WorkerConfig)
    (works : (actions : List Action) (a : Action) → env.outcome actions a ≡ none) where
  -- What the worker publishes on the channel of a request that it streams.
  process-transcript :
      (now : ℕ) (message : QueueMessage) (request : QueuedStreamingRequest) (s : State W)
      (held : List String)
      → from_dict message.payload now ≡ ok request
      → now ≤ request.enqueue_time + c.timeout
      → Counts s.shared.pool held
      → verdict s.shared.pool request.user_id held ≡ ok true
      → let events = stream_of r env c works request in
        let k = channel request.request_id in
        ending events ≢ raise connection_pool_exhausted
        → ending events ≢ raise user_connection_limit
        → transcript k s.actions ≡ []
        → (rest : List String) × (transcript k (process r env c now message s).1.actions
            ≡ texts events ++ closing env.describe (ending events) ∷ rest)
  unfolding transcript closing
  process-transcript now message request s held reads timely counts granted n1 n2 fresh =
      let k = channel request.request_id in
      let events = stream_of r env c works request in
      let told = complaint r env c works in
      let streamed : transcript k (published k events s.actions) ≡ texts events =
        transcript-published k events s.actions ∙ rw fresh refl in
      elim (Result-cases (ending events)) [
        | inl (u, ends) ↦
            let done =
              process-actions r env c works now message request s held reads timely counts granted
                ends in
            (
              told ∷ [],
              rw ends (
                  ap (transcript k) done.1
                  ∙ transcript-publish k told (
                      acknowledge message.id
                      ∷ publish k "SIGNAL:DONE"
                      ∷ published k events s.actions)
                  ∙ ap (λ xs. xs ++ told ∷ [])
                      (transcript-publish k "SIGNAL:DONE" (published k events s.actions)
                        ∙ ap (λ xs. xs ++ "SIGNAL:DONE" ∷ []) streamed)
                  ∙ append_assoc (texts events) ("SIGNAL:DONE" ∷ []) (told ∷ [])),
            )
        | inr (e, fails) ↦
            let failed =
              process-failed r env c works now message request s held e reads timely counts granted
                fails (λ same. n1 (fails ∙ ap raise same)) (λ same. n2 (fails ∙ ap raise same)) in
            let text = str_append "Processing error: " (env.describe e) in
            (
              [],
              rw fails (
                  ap (transcript k) failed
                  ∙ transcript-publish k (signal_text error text) (published k events s.actions)
                  ∙ ap (λ xs. xs ++ signal_text error text ∷ []) streamed
                  ∙ ap (λ t. texts events ++ t ∷ []) (error_text (env.describe e))),
            )
      ]

  -- When the worker's actions succeed and the pool grants a connection, and the stream of the
  -- orchestrator that the worker was given does not fail for want of a connection, a client that
  -- listens on the channel from the start, polls in time and gets the messages that the worker
  -- published there receives exactly the events of the stream, in order, and then one error event if
  -- the stream failed and none if not, with nothing but pings between them, and its loop ends; the
  -- events must be plain texts.
  pub process-message_loop :
      (json : Orjson) (config : StreamConfig) (h : HeartbeatManager) (polls : List Poll) (now : ℕ)
      (message : QueueMessage) (request : QueuedStreamingRequest) (s : State W) (held : List String)
      → from_dict message.payload now ≡ ok request
      → now ≤ request.enqueue_time + c.timeout
      → Counts s.shared.pool held
      → verdict s.shared.pool request.user_id held ≡ ok true
      → ending (stream_of r env c works request) ≢ raise connection_pool_exhausted
      → ending (stream_of r env c works request) ≢ raise user_connection_limit
      → transcript (channel request.request_id) s.actions ≡ []
      → arrivals polls
        ≡ transcript (channel request.request_id) (process r env c now message s).1.actions
      → All (λ (poll : Poll). poll.elapsed ≤ config.timeout) polls
      → All IsPlain (texts (stream_of r env c works request))
      → (without_pings (message_loop json config h polls).0
          ≡ texts (stream_of r env c works request)
            ++ notice json env.describe (ending (stream_of r env c works request)))
        × ((message_loop json config h polls).1 ≡ true)
  process-message_loop json config h polls now message request s held reads timely counts granted n1
        n2 fresh arrived in_time plain =
      let events = stream_of r env c works request in
      let end = ending events in
      let (rest, sent) =
        process-transcript now message request s held reads timely counts granted n1 n2 fresh in
      let (received, ended) =
        message_loop-relays json config h polls (texts events) (closing env.describe end)
          (notice json env.describe end) rest (closing-stops json env.describe end) in_time plain
          (arrived ∙ sent) in
      (received ∙ ap (λ xs. texts events ++ xs) (notice-without_pings json env.describe end), ended)
