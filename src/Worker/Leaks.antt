-- ===== src/Worker/Leaks.antt =====
-- What a request leaves in the pool: `ConnectionManager` releases with the user where the pool
-- expects the thread, and also when nothing was acquired.
use sse_llm_streaming_servic.Base.{
  ◌+◌, ◌-◌, ◌≡◌, ◌≢◌, refl, ◌∙◌, String, List, true, false, Option, none, some, M, Exn, Result, ok,
  raise, then_with, handle_with, arith, length, pure,
}
use sse_llm_streaming_servic.Redis.{RedisClient}
use sse_llm_streaming_servic.Request.{QueuedStreamingRequest}
use sse_llm_streaming_servic.Pool as Pool
use sse_llm_streaming_servic.Pool.Held.{
  Counts, count, verdict, acquire_local, release_local, local_user_count-increment,
  local_user_count-decrement,
}
use sse_llm_streaming_servic.Worker.{
  State, Action, Environment, WorkerConfig, Stream, finished, failed, yields, perform, performed,
  publish_chunk, publish_signal, publish_events, process_stream, with_connection,
  process_with_connection,
}

module _ {W : Type 0} where
  abbrev Keeps : M (State W) (Unit {0}) → Type 0
  Keeps m = (s : State W) → (m s).1.shared ≡ s.shared

  then_with-shared :
      (w : Pool.World W) (p : Result (Unit {0}) × State W) (k : M (State W) (Unit {0}))
      → p.1.shared ≡ w
      → Keeps k
      → (then_with p (λ _. k)).1.shared ≡ w
  then_with-shared w (ok u, s) k q qk = qk s ∙ q
  then_with-shared w (raise e, s) k q qk = q

  performed-shared :
      (a : Action) (s : State W) (o : Option Exn) → (performed a s o).1.shared ≡ s.shared
  performed-shared a s none = refl
  performed-shared a s (some e) = refl

  swallowed : (p : Result (Unit {0}) × State W) → (handle_with p (λ _. pure tt)).1 ≡ p.1
  swallowed (ok a, s) = refl
  swallowed (raise x, s) = refl

module _ {W : Type 0} (r : RedisClient W) (env : Environment) (c : WorkerConfig) where
  perform-Keeps : (a : Action) → Keeps (perform r env c a)
  unfolding perform
  perform-Keeps a s = performed-shared a s (env.outcome s.actions a)

  publish_events-Keeps :
      (request_id : String) (events : Stream) → Keeps (publish_events r env c request_id events)
  unfolding publish_events publish_chunk
  publish_events-Keeps request_id finished = λ s. refl
  publish_events-Keeps request_id (failed e) = λ s. refl
  publish_events-Keeps request_id (yields event rest) = λ s.
      then_with-shared s.shared _ (publish_events r env c request_id rest) (perform-Keeps _ s)
        (publish_events-Keeps request_id rest)

  process_stream-Keeps : (request : QueuedStreamingRequest) → Keeps (process_stream r env c request)
  unfolding process_stream publish_signal
  process_stream-Keeps request s =
      then_with-shared s.shared _ _ (publish_events-Keeps _ _ s) (perform-Keeps _)

  refused_run :
      (request : QueuedStreamingRequest) (s : State W) (e : Exn)
      → s.shared.pool.connected ≡ false
      → Pool.acquire_connection r request.user_id request.thread_id s.shared ≡ (raise e, s.shared)
      → process_with_connection r env c request s ≡ (
        raise e,
        record s {
          shared = record s.shared {
            pool = Pool.decrement_local (some request.thread_id) request.user_id s.shared.pool;
          };
        },
      )
  unfolding process_with_connection with_connection
  refused_run request s e off acquired =
      rw (acquired, release_local r request.thread_id request.user_id s.shared off) refl

  granted_run :
      (request : QueuedStreamingRequest) (s : State W) (p : Pool.World W)
      → p.pool.connected ≡ false
      → Pool.acquire_connection r request.user_id request.thread_id s.shared ≡ (ok true, p)
      → (process_with_connection r env c request s).1.shared.pool
        ≡ Pool.decrement_local (some request.thread_id) request.user_id p.pool
  unfolding process_with_connection with_connection
  granted_run request s p off acquired =
      let s' : State W = record s { shared = p } in
      let kept : (process_stream r env c request s').1.shared ≡ p =
        process_stream-Keeps request s' in
      rw (acquired, kept, release_local r request.thread_id request.user_id p off) refl

  -- When the local pool refuses a request, its error is raised, and the pool's total is afterwards
  -- one less than the connections that are held.
  pub refused-local_total_count :
      (request : QueuedStreamingRequest) (s : State W) (held : List String) (e : Exn)
      → Counts s.shared.pool held
      → verdict s.shared.pool request.user_id held ≡ raise e
      → ((process_with_connection r env c request s).0 ≡ raise e)
        × ((process_with_connection r env c request s).1.shared.pool.local_total_count
            ≡ length held - 1)
  unfolding Pool.decrement_local
  refused-local_total_count request s held e h refused =
      let acquired : Pool.acquire_connection r request.user_id request.thread_id s.shared
          ≡ (raise e, s.shared) =
        rw (acquire_local r request.user_id request.thread_id s.shared held h, refused) refl in
      rw (refused_run request s e h.local acquired) (refl, ground (arith, h.total))

  -- A request that the local pool grants leaves the total as it was, but one more connection of
  -- its user than the user holds, when thread and user are named differently.
  pub granted-local_user_count :
      (request : QueuedStreamingRequest) (s : State W) (held : List String)
      → Counts s.shared.pool held
      → verdict s.shared.pool request.user_id held ≡ ok true
      → request.thread_id ≢ ""
      → request.thread_id ≢ request.user_id
      → ((process_with_connection r env c request s).1.shared.pool.local_total_count ≡ length held)
        × (Pool.local_user_count
              (process_with_connection r env c request s).1.shared.pool
              request.user_id
            ≡ count request.user_id held + 1)
  unfolding Pool.increment_local Pool.decrement_local
  granted-local_user_count request s held h granted named apart =
      let p : Pool.World W = record s.shared {
        pool = Pool.increment_local request.user_id request.thread_id s.shared.pool;
      } in
      let acquired : Pool.acquire_connection r request.user_id request.thread_id s.shared
          ≡ (ok true, p) =
        rw (acquire_local r request.user_id request.thread_id s.shared held h, granted) refl in
      let up =
        local_user_count-increment request.user_id request.user_id request.thread_id
          s.shared.pool in
      let down =
        local_user_count-decrement request.user_id request.thread_id request.user_id p.pool named in
      rw (granted_run request s p h.local acquired)
        (ground (arith, h.total), ground (arith, up, down, h.by_user request.user_id))
