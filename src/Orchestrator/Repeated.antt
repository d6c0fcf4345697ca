-- ===== src/Orchestrator/Repeated.antt =====
-- A request that follows one like it, and a request above the limit.
use sse_llm_streaming_servic.Base.{
  ◌+◌, ◌≡◌, refl, String, List, [], ◌∷◌, true, false, Option, none, some, ok, raise, arith, leb,
  validation_error,
}
use sse_llm_streaming_servic.Base.Dict.{lookup}
use sse_llm_streaming_servic.Cache.Store.{IsStore}
use sse_llm_streaming_servic.Cache.Manager.Refinement.{put, Represents}
use sse_llm_streaming_servic.Provider as Provider
use sse_llm_streaming_servic.Tracker.{ExecutionTracker, StageExecution, Traced, entries}
use sse_llm_streaming_servic.Tracker.Nesting.{Outside}
use sse_llm_streaming_servic.Validators.{passes, validate_query, validate_model}
use sse_llm_streaming_servic.Tracker.Silent.{at, Ran, track_stage-Ran}
use sse_llm_streaming_servic.Orchestrator.{
  cache_key, Service, StreamRequest, Environment, SseEvent, status, cached_content, cached_complete,
  internal_error, is_sse_base, present, validate, check_connection_limit, serve, report, stream,
}
use sse_llm_streaming_servic.Orchestrator.Restoring.{stream-active_connections}
use sse_llm_streaming_servic.Orchestrator.Runs.{Admitted, entered, yield_event-emit, stream-cached}
use sse_llm_streaming_servic.Orchestrator.Relayed.{failure}
use sse_llm_streaming_servic.Orchestrator.Storing.{reply, stream-stored}

module _ {W R : Type 0} (env : Environment W R) (law : IsStore env.store)
    (reads_out : (es : List SseEvent) → env.closes es ≡ false) (request : StreamRequest) where
  -- Nothing recorded for a thread puts it outside every stage.
  cleared-Outside :
      (thread_id : String) (t : ExecutionTracker)
      → lookup thread_id t.executions ≡ none
      → lookup thread_id t.stage_stack ≡ none
      → Outside thread_id [] t
  unfolding entries
  cleared-Outside thread_id t e k = record {
    stack = rw (k, entries) refl;
    recorded = rw (e, entries) refl;
  }

  put_self : (f : String → Option String) (k text : String) → put k (some text) f k ≡ some text
  put_self f k text = ground arith

  -- A consumer reads two streams of one request to their ends, the second right after the first. The
  -- validators and the limit let the request pass, its thread is outside every stage, the cache
  -- represents a map without an answer to it, and a provider is chosen that streams a text, not an empty one,
  -- without a failure. Then the second stream sends its status, that text from the cache and its completion, and
  -- leaves the providers as they are.
  pub stream-again :
      (f : String → Option String) (es : List StageExecution) (s : Traced (Service W R))
      (p : String) (w : Provider.World R)
      → Admitted env law reads_out request s
      → Outside request.thread_id es s.tracker
      → Represents env.store law f s.state.cache
      → present (f (cache_key env request)) ≡ none
      → Provider.select_provider env.redis env.get_breaker env.construct request.provider
          s.state.providers
        ≡ (ok (some p), w)
      → failure (env.chunks p request.query request.model) ≡ none
      → present (some (reply env law reads_out request p))
        ≡ some (reply env law reads_out request p)
      → let first = (stream env request s).1 in
        let second = stream env request first in
        (second.0 ≡ ok tt)
        × (second.1.state.emitted
            ≡ cached_complete request.thread_id
              ∷ cached_content (reply env law reads_out request p)
              ∷ status request.thread_id
              ∷ first.state.emitted)
        × (second.1.state.providers ≡ first.state.providers)
  stream-again f es s p w a o r miss chosen whole full =
      let first : Traced (Service W R) = (stream env request s).1 in
      let (done, sent, keep) =
        stream-stored env law reads_out request f es s p w a o r miss chosen whole in
      let (same, forgot, dropped) = stream-active_connections env request s in
      let text = reply env law reads_out request p in
      let k = cache_key env request in
      let (ended, shown, alone, still) =
        stream-cached env law reads_out request (put k (some text) f) text [] first
          (record { query = a.query; model = a.model; below = rw same a.below })
          (cleared-Outside request.thread_id first.tracker forgot dropped) keep
          (rw (put_self f k text) full) in
      (ended, shown, alone)

  -- A request passes the validators, its thread is outside every stage, a consumer reads its stream to the
  -- end, and the active connections with its own reach the limit. Then the stream sends only an internal
  -- error, and leaves the cache and the providers as they are.
  pub stream-full :
      (es : List StageExecution) (s : Traced (Service W R))
      → validate_query env.rules request.query ≡ passes
      → validate_model env.rules request.model none ≡ passes
      → leb env.max_connections (s.state.active_connections + 1) ≡ true
      → Outside request.thread_id es s.tracker
      → let out = stream env request s in
        (out.0 ≡ ok tt)
        × (out.1.state.emitted ≡ internal_error request.thread_id ∷ s.state.emitted)
        × (out.1.state.cache ≡ s.state.cache)
        × (out.1.state.providers ≡ s.state.providers)
  unfolding stream serve report is_sse_base Ran
  stream-full es s q m full o =
      let u : Service W R = entered env law reads_out request s.state in
      let refused : (t : ExecutionTracker)
          → validate env request (at t u) ≡ (raise validation_error, at t u) =
        λ t. unfold validate check_connection_limit in rw (q, m, full) refl in
      let (t0, t1, es1, ran, out) =
        track_stage-Ran env.md5 env.elapsed request.thread_id "1" "Request validation"
          (validate env request) (λ t. raise validation_error) u u refused es s.tracker o in
      rw (ran, yield_event-emit env law reads_out request (internal_error request.thread_id) t1 u)
        (refl, refl, refl, refl)
