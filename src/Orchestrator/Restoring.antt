-- ===== src/Orchestrator/Restoring.antt =====
-- What a stream gives back, however it ends.
use sse_llm_streaming_servic.Base.{
  ℕ, ◌+◌, ◌≡◌, refl, ◌∙◌, ◌∷◌, Bool, true, false, none, M, Exn, Result, ok, raise, generator_exit,
  arith,
}
use sse_llm_streaming_servic.Base.Dict.{lookup, lookup-remove_self}
use sse_llm_streaming_servic.Tracker.{Traced, clear_thread_data}
use sse_llm_streaming_servic.Orchestrator.{
  Service, StreamRequest, Environment, SseEvent, yielded, yield_event, serve, report, opened,
  stream, except_exception,
}
use sse_llm_streaming_servic.Orchestrator.Effects.{Keeps, Keeps-then}
use sse_llm_streaming_servic.Orchestrator.Views.{serve-property}

module _ {W R : Type 0} (env : Environment W R) where
  abbrev active : Traced (Service W R) → ℕ
  active s = s.state.active_connections

  yielded-active :
      (e : SseEvent) (s : Traced (Service W R)) (b : Bool) → active (yielded env e s b).1 ≡ active s
  yielded-active e s true = refl
  yielded-active e s false = refl

  yield_event-active : (e : SseEvent) → Keeps active (yield_event env e)
  unfolding yield_event
  yield_event-active e s = yielded-active e s (env.closes (e ∷ s.state.emitted))

  serve-active : (request : StreamRequest) → Keeps active (serve env request)
  serve-active request =
      serve-property env active (λ s t. refl) (λ s c. refl) (λ s p. refl)
        (λ e f. yield_event-active e) (Keeps active) (λ A m k. Keeps-then active m k)
        (λ e f. yield_event-active e) request

  except_exception-active :
      (n : ℕ) (p : Result (Unit {0}) × Traced (Service W R))
      (h : Exn → M (Traced (Service W R)) (Unit {0}))
      → active p.1 ≡ n
      → ((e : Exn) → Keeps active (h e))
      → active (except_exception p h).1 ≡ n
  except_exception-active n (ok a, s) h e k = e
  except_exception-active n (raise generator_exit, s) h e k = e
  except_exception-active n (raise x, s) h e k = k x s ∙ e

  report-active : (request : StreamRequest) (e : Exn) → Keeps active (report env request e)
  unfolding report
  report-active request e = yield_event-active _

  -- However a stream ends, with a result, an error, or a consumer that closes it at any event, it gives
  -- its place among the active connections back, and the tracker keeps nothing of its thread.
  pub stream-active_connections :
      (request : StreamRequest) (s : Traced (Service W R))
      → let after = (stream env request s).1 in
        (after.state.active_connections ≡ s.state.active_connections)
        × (lookup request.thread_id after.tracker.executions ≡ none)
        × (lookup request.thread_id after.tracker.stage_stack ≡ none)
  unfolding stream clear_thread_data
  stream-active_connections request s =
      let served : Result (Unit {0}) × Traced (Service W R) = serve env request (opened env s) in
      let t : Traced (Service W R) = (except_exception served (report env request)).1 in
      (
        omega (
          arith,
          except_exception-active (s.state.active_connections + 1) served (report env request)
              (serve-active request (opened env s)) (report-active request),
        ),
        lookup-remove_self request.thread_id t.tracker.executions,
        lookup-remove_self request.thread_id t.tracker.stage_stack,
      )
