-- ===== src/Worker/Retries.antt =====
-- What the worker does when its actions succeed: the retries, their delays, and a delivery.
use sse_llm_streaming_servic.Base.{
  ℕ, suc, ◌+◌, ◌*◌, ◌^◌, ◌≤◌, ◌≡◌, refl, ◌∙◌, ap, String, List, ◌∷◌, true, false, none, Result, ok,
  raise, arith, ltb, min, attribute_error, connection_pool_exhausted, user_connection_limit, ◌≢◌,
  Exn, ◌>>◌, Bool-cases, inl, inr, if◌then◌else◌,
}
use native.Mathlib.Nat.{two-pow-succ}
use Prim.Native.String.{◌++◌ as str_append}
use sse_llm_streaming_servic.Redis.{RedisClient}
use sse_llm_streaming_servic.Request.{QueuedStreamingRequest, to_dict, from_dict}
use sse_llm_streaming_servic.Pool as Pool
use sse_llm_streaming_servic.Pool.Held.{Counts, verdict, acquire_local, release_local}
use sse_llm_streaming_servic.Worker.{
  State, Action, publish, acknowledge, produce, sleep, Environment, WorkerConfig, QueueMessage,
  Stream, finished, failed, yields, perform, channel, signal_text, signal_value, error, payload_get,
  calculate_backoff_delay, should_retry, is_timed_out, publish_chunk, publish_signal, publish_error,
  publish_events, process_stream, process_with_connection, with_connection, recover, handle_retry,
  process,
}

-- The first delay is the base delay, and each further one is twice the one before; none passes the
-- cap.
pub calculate_backoff_delay-doubles :
    (c : WorkerConfig) (retry_count : ℕ)
    → (calculate_backoff_delay c 0 ≡ min c.base_delay_ms c.max_backoff_ms)
      × (calculate_backoff_delay c (retry_count + 1)
          ≡ min (2 * calculate_backoff_delay c retry_count) c.max_backoff_ms)
unfolding calculate_backoff_delay
calculate_backoff_delay-doubles c n =
    let next : n + 1 ≡ suc n = omega arith in
    let twice : 2 ^ (n + 1) ≡ 2 ^ n + 2 ^ n = ap (λ k. 2 ^ k) next ∙ two-pow-succ n in
    let product : c.base_delay_ms * (2 ^ n + 2 ^ n)
        ≡ c.base_delay_ms * 2 ^ n + c.base_delay_ms * 2 ^ n =
      omega arith in
    let one : 2 ^ 0 ≡ 1 = refl in
    (
      ap (λ x. min (c.base_delay_ms * x) c.max_backoff_ms) one ∙ omega arith,
      omega (arith, ap (λ x. c.base_delay_ms * x) twice, product),
    )

-- The actions of a stream, on top of those before.
unfoldable pub published : String → Stream → List Action → List Action
published k finished actions = actions
published k (failed e) actions = actions
published k (yields event rest) actions = published k rest (publish k event ∷ actions)

-- How a stream ends.
unfoldable pub ending : Stream → Result (Unit {0})
ending finished = ok tt
ending (failed e) = raise e
ending (yields event rest) = ending rest

module _ {W : Type 0} (r : RedisClient W) (env : Environment) (c : WorkerConfig)
    (works : (actions : List Action) (a : Action) → env.outcome actions a ≡ none) where
  perform_works :
      (a : Action) (s : State W)
      → perform r env c a s ≡ (ok tt, record s { actions = a ∷ s.actions })
  unfolding perform
  perform_works a s = rw (works s.actions a) refl

  -- When its actions succeed, a retry below the limit waits for the delay, puts the request back
  -- with its count raised by one, and only then acknowledges; at the limit the client is told and
  -- the message is acknowledged, and nothing is put back.
  pub handle_retry-actions :
      (message : QueueMessage) (request : QueuedStreamingRequest) (why : String) (s : State W)
      → handle_retry r env c message request why s ≡ (
        ok tt,
        record s {
          actions =
              if ltb request.retry_count c.max_retries
              then acknowledge message.id
                ∷ produce (to_dict (record request { retry_count = request.retry_count + 1 }))
                ∷ sleep (calculate_backoff_delay c request.retry_count)
                ∷ s.actions
              else acknowledge message.id
                ∷ publish
                    (channel request.request_id)
                    (signal_text error (str_append "Max retries exceeded: " why))
                ∷ s.actions;
        },
      )
  unfolding handle_retry should_retry publish_signal
  handle_retry-actions message request why s =
      elim (Bool-cases (ltb request.retry_count c.max_retries)) [
        | inl e ↦ rw (e, perform_works, perform_works, perform_works) refl
        | inr e ↦ rw (e, perform_works, perform_works) refl
      ]

  publish_events-actions :
      (request_id : String) (events : Stream) (s : State W)
      → publish_events r env c request_id events s
        ≡ (ending events, record s { actions = published (channel request_id) events s.actions })
  unfolding publish_events publish_chunk published ending
  publish_events-actions request_id finished s = refl
  publish_events-actions request_id (failed e) s = refl
  publish_events-actions request_id (yields event rest) s =
      rw (perform_works, publish_events-actions request_id rest) refl

  -- The stream of a request.
  abbrev pub stream_of : QueuedStreamingRequest → Stream
  stream_of request =
      env.stream (payload_get "query" "" request.payload)
        (payload_get "model" "gpt-3.5-turbo" request.payload)
        (payload_get "provider" "fake" request.payload) request.user_id

  process_stream_works :
      (request : QueuedStreamingRequest) (s : State W)
      → ending (stream_of request) ≡ ok tt
      → process_stream r env c request s ≡ (
        ok tt,
        record s {
          actions =
              publish (channel request.request_id) "SIGNAL:DONE"
              ∷ published (channel request.request_id) (stream_of request) s.actions;
        },
      )
  unfolding process_stream publish_signal signal_text signal_value
  process_stream_works request s ends =
      rw (publish_events-actions request.request_id (stream_of request) s, ends, perform_works) refl

  -- What the worker publishes after it has acknowledged a message that it delivered.
  abbrev pub complaint : String
  complaint = signal_text error (str_append "Processing error: " (env.describe attribute_error))

  -- When its actions succeed, the pool grants a connection and the stream ends, a message in time
  -- is delivered: every event of the stream is published in order, then the done signal, and then
  -- the message is acknowledged. After that the client is told of an error, and the message is
  -- acknowledged again.
  pub process-actions :
      (now : ℕ) (message : QueueMessage) (request : QueuedStreamingRequest) (s : State W)
      (held : List String)
      → from_dict message.payload now ≡ ok request
      → now ≤ request.enqueue_time + c.timeout
      → Counts s.shared.pool held
      → verdict s.shared.pool request.user_id held ≡ ok true
      → ending (stream_of request) ≡ ok tt
      → ((process r env c now message s).0 ≡ ok tt)
        × ((process r env c now message s).1.actions
            ≡ acknowledge message.id
              ∷ publish (channel request.request_id) complaint
              ∷ acknowledge message.id
              ∷ publish (channel request.request_id) "SIGNAL:DONE"
              ∷ published (channel request.request_id) (stream_of request) s.actions)
  unfolding process is_timed_out process_with_connection with_connection recover publish_signal
      Pool.increment_local
  process-actions now message request s held reads timely h granted ends =
      let p : Pool.World W = record s.shared {
        pool = Pool.increment_local request.user_id request.thread_id s.shared.pool;
      } in
      let acquired : Pool.acquire_connection r request.user_id request.thread_id s.shared
          ≡ (ok true, p) =
        rw (acquire_local r request.user_id request.thread_id s.shared held h, granted) refl in
      let in_time : ltb (request.enqueue_time + c.timeout) now ≡ false = ground arith in
      rw
        (
          reads,
          in_time,
          acquired,
          process_stream_works request (record s { shared = p }) ends,
          release_local r request.thread_id request.user_id p h.local,
          perform_works,
          perform_works,
          perform_works,
        )
        (refl, refl)

  recover_other :
      (message : QueueMessage) (request : QueuedStreamingRequest) (e : Exn)
      → e ≢ connection_pool_exhausted
      → e ≢ user_connection_limit
      → recover r env c message request e ≡ (
          publish_error r env c request.request_id
            (str_append "Processing error: " (env.describe e))
          >> perform r env c (acknowledge message.id))
  unfolding recover
  recover_other message request connection_pool_exhausted n1 n2 = absurd (n1 refl)
  recover_other message request user_connection_limit n1 n2 = absurd (n2 refl)
  recover_other message request _ n1 n2 = refl

  -- When its actions succeed, the pool grants a connection and the stream fails, but not for want of a
  -- connection, every event before is published in order, then the error, and the message is
  -- acknowledged.
  pub process-failed :
      (now : ℕ) (message : QueueMessage) (request : QueuedStreamingRequest) (s : State W)
      (held : List String) (e : Exn)
      → from_dict message.payload now ≡ ok request
      → now ≤ request.enqueue_time + c.timeout
      → Counts s.shared.pool held
      → verdict s.shared.pool request.user_id held ≡ ok true
      → ending (stream_of request) ≡ raise e
      → e ≢ connection_pool_exhausted
      → e ≢ user_connection_limit
      → (process r env c now message s).1.actions
        ≡ acknowledge message.id
          ∷ publish
              (channel request.request_id)
              (signal_text error (str_append "Processing error: " (env.describe e)))
          ∷ published (channel request.request_id) (stream_of request) s.actions
  unfolding process is_timed_out process_with_connection with_connection publish_signal
      process_stream Pool.increment_local
  process-failed now message request s held e reads timely h granted fails n1 n2 =
      let p : Pool.World W = record s.shared {
        pool = Pool.increment_local request.user_id request.thread_id s.shared.pool;
      } in
      let acquired : Pool.acquire_connection r request.user_id request.thread_id s.shared
          ≡ (ok true, p) =
        rw (acquire_local r request.user_id request.thread_id s.shared held h, granted) refl in
      let in_time : ltb (request.enqueue_time + c.timeout) now ≡ false = ground arith in
      rw
        (
          reads,
          in_time,
          acquired,
          publish_events-actions request.request_id (stream_of request) (record s { shared = p }),
          fails,
          release_local r request.thread_id request.user_id p h.local,
          recover_other message request e n1 n2,
          perform_works,
          perform_works,
        )
        refl
