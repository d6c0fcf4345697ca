-- ===== src/Worker/Acks.antt =====
-- What the worker acknowledges, whatever the environment does.
use sse_llm_streaming_servic.Base.{
  ℕ, ◌+◌, ◌≡◌, refl, ◌∙◌, ap, String, List, ◌∷◌, Bool, true, false, Option, none, some,
  connection_pool_exhausted, user_connection_limit, attribute_error, M, Exn, Result, ok, raise,
  ◌>>◌, then_with, handle_with, inl, inr, Result-cases, if◌then◌else◌, pure,
}
use sse_llm_streaming_servic.Redis.{RedisClient}
use sse_llm_streaming_servic.Request.{QueuedStreamingRequest, from_dict, to_dict}
use sse_llm_streaming_servic.Pool as Pool
use sse_llm_streaming_servic.Worker.{
  should_retry, State, Action, acknowledge, publish, produce, sleep, Environment, WorkerConfig,
  QueueMessage, Stream, finished, failed, yields, perform, performed, is_timed_out,
  calculate_backoff_delay, on_pool, publish_chunk, publish_signal, publish_events, publish_error,
  process_stream, process_with_connection, with_connection, handle_retry, recover, process,
}
use sse_llm_streaming_servic.Worker.Settling.{
  acked, Settles, SettlesOnce, Quiet, SettlingOnce, Settling, Once-Settling, Quiet-then,
  SettlingOnce-then, Settling-try,
}

module _ {W : Type 0} (r : RedisClient W) (env : Environment) (c : WorkerConfig) where
  performed-SettlesOnce :
      (id : String) (s : State W) (o : Option Exn)
      → SettlesOnce id s.actions
          (performed (acknowledge id) s o).0
          (performed (acknowledge id) s o).1.actions
  unfolding SettlesOnce
  performed-SettlesOnce id s none = (s.actions, refl, refl)
  performed-SettlesOnce id s (some e) = refl

  perform-SettlingOnce : (id : String) → SettlingOnce id (perform r env c (acknowledge id))
  unfolding perform
  perform-SettlingOnce id s = performed-SettlesOnce id s (env.outcome s.actions (acknowledge id))

  performed-acked :
      (a : Action) (s : State W) (o : Option Exn)
      → acked (a ∷ s.actions) ≡ acked s.actions
      → acked (performed a s o).1.actions ≡ acked s.actions
  performed-acked a s none e = e
  performed-acked a s (some x) e = refl

  perform-Quiet :
      (a : Action)
      → ((actions : List Action) → acked (a ∷ actions) ≡ acked actions)
      → Quiet (perform r env c a)
  unfolding perform
  perform-Quiet a none_more s = performed-acked a s (env.outcome s.actions a) (none_more s.actions)

  publish-Quiet : (k t : String) → Quiet (perform r env c (publish k t))
  unfolding acked
  publish-Quiet k t = perform-Quiet (publish k t) (λ actions. refl)

  publish_error-Quiet :
      (request_id message : String) → Quiet (publish_error r env c request_id message)
  unfolding publish_signal
  publish_error-Quiet request_id message = publish-Quiet _ _

  publish_events-Quiet :
      (request_id : String) (events : Stream) → Quiet (publish_events r env c request_id events)
  unfolding publish_events publish_chunk
  publish_events-Quiet request_id finished = λ s. refl
  publish_events-Quiet request_id (failed e) = λ s. refl
  publish_events-Quiet request_id (yields event rest) =
      Quiet-then _ _ (publish-Quiet _ _) (publish_events-Quiet request_id rest)

  process_stream-Quiet : (request : QueuedStreamingRequest) → Quiet (process_stream r env c request)
  unfolding process_stream publish_signal
  process_stream-Quiet request = Quiet-then _ _ (publish_events-Quiet _ _) (publish-Quiet _ _)

  -- The pool is no action.
  acquire_then :
      (b : List Action) (p : Result Bool × State W) (body : M (State W) (Unit {0}))
      → acked p.1.actions ≡ acked b
      → Quiet body
      → acked (then_with p (λ _. body)).1.actions ≡ acked b
  acquire_then b (ok a, s) body e qb = qb s ∙ e
  acquire_then b (raise x, s) body e qb = e

  swallowed : (p : Result (Unit {0}) × State W) → (handle_with p (λ _. pure tt)).1 ≡ p.1
  swallowed (ok a, s) = refl
  swallowed (raise x, s) = refl

  with_connection-Quiet :
      (user_id thread_id : String) (body : M (State W) (Unit {0}))
      → Quiet body
      → Quiet (with_connection r env c user_id thread_id body)
  unfolding with_connection
  with_connection-Quiet user_id thread_id body qb s =
      let acquired = on_pool r env c (Pool.acquire_connection r user_id thread_id) s in
      let s' : State W = (then_with acquired (λ _. body)).1 in
      let released = on_pool r env c (Pool.release_connection r user_id (some thread_id)) s' in
      ap (λ (x : State W). acked x.actions) (swallowed released)
      ∙ acquire_then s.actions acquired body refl qb

  process_with_connection-Quiet :
      (request : QueuedStreamingRequest) → Quiet (process_with_connection r env c request)
  unfolding process_with_connection
  process_with_connection-Quiet request =
      with_connection-Quiet _ _ (process_stream r env c request) (process_stream-Quiet request)

  if-SettlingOnce :
      (id : String) (b : Bool) (m k : M (State W) (Unit {0}))
      → SettlingOnce id m
      → SettlingOnce id k
      → SettlingOnce id (if b then m else k)
  if-SettlingOnce id true m k sm sk = sm
  if-SettlingOnce id false m k sm sk = sk

  handle_retry-SettlingOnce :
      (message : QueueMessage) (request : QueuedStreamingRequest) (why : String)
      → SettlingOnce message.id (handle_retry r env c message request why)
  unfolding handle_retry acked
  handle_retry-SettlingOnce message request why =
      let acked = perform-SettlingOnce message.id in
      let delay : Action = sleep (calculate_backoff_delay c request.retry_count) in
      let again : Action =
        produce (to_dict (record request { retry_count = request.retry_count + 1 })) in
      if-SettlingOnce message.id (should_retry c request) _ _
        (SettlingOnce-then message.id _ _
          (Quiet-then (perform r env c delay) (perform r env c again)
            (perform-Quiet delay (λ actions. refl)) (perform-Quiet again (λ actions. refl)))
          acked)
        (SettlingOnce-then message.id _ _ (publish_error-Quiet _ _) acked)

  recover-SettlingOnce :
      (message : QueueMessage) (request : QueuedStreamingRequest) (e : Exn)
      → SettlingOnce message.id (recover r env c message request e)
  unfolding recover
  recover-SettlingOnce message request connection_pool_exhausted =
      handle_retry-SettlingOnce message request _
  recover-SettlingOnce message request user_connection_limit =
      handle_retry-SettlingOnce message request _
  recover-SettlingOnce message request e =
      SettlingOnce-then message.id _ _ (publish_error-Quiet _ _) (perform-SettlingOnce message.id)

  acked_once : (id : String) → Settling id (perform r env c (acknowledge id))
  acked_once id = Once-Settling id (perform r env c (acknowledge id)) (perform-SettlingOnce id)

  if-Settling :
      (id : String) (b : Bool) (m k : M (State W) (Unit {0}))
      → Settling id m
      → Settling id k
      → Settling id (if b then m else k)
  if-Settling id true m k sm sk = sm
  if-Settling id false m k sm sk = sk

  -- Whatever Redis, the queue and the orchestrator do: when `process` returns, its last action
  -- acknowledges its message, which it may have acknowledged once before; when it raises, it
  -- acknowledged its message at most once; and it acknowledges no other message.
  pub process-Settles :
      (now : ℕ) (message : QueueMessage) (s : State W)
      → Settles message.id s.actions
          (process r env c now message s).0
          (process r env c now message s).1.actions
  unfolding process
  process-Settles now message s = elim (Result-cases (from_dict message.payload now)) [
    | inl (request, e) ↦ rw e (
        if-Settling message.id (is_timed_out c now request) _ _ (acked_once message.id)
          (Settling-try message.id attribute_error
            (process_with_connection r env c request >> perform r env c (acknowledge message.id))
            (recover r env c message request)
            (SettlingOnce-then message.id _ _ (process_with_connection-Quiet request)
              (perform-SettlingOnce message.id))
            (recover-SettlingOnce message request))
          s)
    | inr (x, e) ↦ rw e (acked_once message.id s)
  ]
