-- ===== src/Orchestrator/Storing.antt =====
-- Streams whose answer comes from a provider: what the client gets, and what the cache holds afterwards.
use sse_llm_streaming_servic.Base.{
  char_count, ℕ, ◌≡◌, refl, String, List, ◌∷◌, false, Option, none, some, M, Exn, ok, raise,
  generator_exit, if◌then◌else◌,
}
use sse_llm_streaming_servic.Cache.Store.{IsStore}
use sse_llm_streaming_servic.Cache.Manager.{CacheManager}
use sse_llm_streaming_servic.Cache.Manager.Refinement.{put, Represents, set_map}
use sse_llm_streaming_servic.Provider as Provider
use sse_llm_streaming_servic.Tracker.{ExecutionTracker, StageExecution, Traced}
use sse_llm_streaming_servic.Tracker.Nesting.{Outside}
use sse_llm_streaming_servic.Tracker.Silent.{at, Ran, track_stage-Ran}
use sse_llm_streaming_servic.Tracker.Summary.{get_execution_summary}
use sse_llm_streaming_servic.Orchestrator.{
  cache_key, Service, StreamRequest, Environment, SseEvent, status, complete, sse_error,
  internal_error, is_sse_base, present, cleanup, answer, report, stream, except_exception,
}
use sse_llm_streaming_servic.Orchestrator.Runs.{
  Admitted, emit, entered, yield_event-emit, serve-answer,
}
use sse_llm_streaming_servic.Orchestrator.Relayed.{
  pieces, failure, text_of, count_of, contents, sent, generate-relayed,
}

except_exception-raise :
    {S A : Type 0} (e : Exn) (s : S) (h : Exn → M S A)
    → ¬ (e ≡ generator_exit)
    → except_exception (raise e, s) h ≡ h e s
except_exception-raise generator_exit s h n = absurd (n refl)
except_exception-raise _ s h n = refl

module _ {W R : Type 0} (env : Environment W R) (law : IsStore env.store)
    (reads_out : (es : List SseEvent) → env.closes es ≡ false) (request : StreamRequest) where
  -- What a provider streams for the request, and the text of it.
  unfoldable pub streamed : String → List (String × Option String)
  streamed p = pieces (env.chunks p request.query request.model)

  unfoldable pub reply : String → String
  reply p = text_of "" (streamed p)

  cleanup-run :
      (f : String → Option String) (text : String) (u : Service W R)
      → Represents env.store law f u.cache
      → (c : CacheManager String W) × ((t : ExecutionTracker)
          → cleanup env request text (at t u) ≡ (
            ok (get_execution_summary request.thread_id t).total_duration_ms,
            at t (record u { cache = c }),
          ))
        × Represents env.store law (put (cache_key env request) (some text) f) c
  unfolding cleanup
  cleanup-run f text u r =
      let (c, run, keep) =
        set_map env.store law f u.cache r (cache_key env request) text (some env.response_ttl) in
      (c, (λ t. rw run refl), keep)

  module _ (f : String → Option String) (es : List StageExecution) (s : Traced (Service W R))
      (p : String) (w : Provider.World R) (a : Admitted env law reads_out request s)
      (o : Outside request.thread_id es s.tracker) (r : Represents env.store law f s.state.cache)
      (miss : present (f (cache_key env request)) ≡ none)
      (chosen : Provider.select_provider env.redis env.get_breaker env.construct request.provider
          s.state.providers
        ≡ (ok (some p), w)) where
    -- A consumer reads the stream to its end, the validators and the limit let the request pass, its thread
    -- is outside every stage, the cache represents a map without an answer to it, and a provider is chosen whose chunks
    -- do not fail before the first that has a finish reason. Then the stream sends the status, the chunks up to that
    -- one, and the completion with their number and the length of their text, and afterwards the cache
    -- represents the map with that text for the request.
    pub stream-stored :
        failure (env.chunks p request.query request.model) ≡ none
        → let out = stream env request s in
          (out.0 ≡ ok tt)
          × ((d : ℕ) × (out.1.state.emitted
                ≡ complete request.thread_id (count_of 0 (streamed p)) (char_count (reply p)) d
                  ∷ contents 0 (streamed p) (status request.thread_id ∷ s.state.emitted)))
          × Represents env.store law
              (put (cache_key env request) (some (reply p)) f)
              out.1.state.cache
    unfolding stream answer streamed reply Ran
    stream-stored whole =
        let (t, es1, c, served, out, keep) = serve-answer env law reads_out request f es s a o r in
        let u0 : Service W R =
          record (emit env law reads_out request (status request.thread_id)
            (entered env law reads_out request s.state)) { cache = c } in
        let (t1, es2, ran, out1) =
          generate-relayed env law reads_out request p w u0 chosen es1 t out in
        let u1 : Service W R = sent env law reads_out request p w u0 chosen in
        let text = text_of "" (pieces (env.chunks p request.query request.model)) in
        let (c', stores, keep') = cleanup-run f text u1 keep in
        let u2 : Service W R = record u1 { cache = c' } in
        let total : ExecutionTracker → ℕ =
          λ t. (get_execution_summary request.thread_id t).total_duration_ms in
        let (t2, t3, es3, ran6, out3) =
          track_stage-Ran env.md5 env.elapsed request.thread_id "6" "Cleanup and caching"
            (cleanup env request text) (λ t. ok (total t)) u1 u2 stores es2 t1 out1 in
        let done =
          complete request.thread_id
            (count_of 0 (pieces (env.chunks p request.query request.model))) (char_count text)
            (total t2) in
        rw (served, miss, ran, whole, ran6, yield_event-emit env law reads_out request done t3 u2)
          (refl, (total t2, refl), keep')

    -- A consumer reads the stream to its end, the validators and the limit let the request pass, its thread
    -- is outside every stage, the cache represents a map without an answer to it, and a provider is chosen whose chunks
    -- fail, not as a closed generator does, before any that has a finish reason. Then the stream sends the
    -- status, the chunks so far and one error, and the cache still represents that map: no part of the
    -- answer is stored.
    pub stream-broken :
        (e : Exn)
        → failure (env.chunks p request.query request.model) ≡ some e
        → ¬ (e ≡ generator_exit)
        → let out = stream env request s in
          (out.0 ≡ ok tt)
          × (out.1.state.emitted
              ≡ (if is_sse_base e
                  then sse_error e request.thread_id
                  else internal_error request.thread_id)
                ∷ contents 0 (streamed p) (status request.thread_id ∷ s.state.emitted))
          × Represents env.store law f out.1.state.cache
    unfolding stream answer streamed report
    stream-broken e fails other =
        let (t, es1, c, served, out, keep) = serve-answer env law reads_out request f es s a o r in
        let u0 : Service W R =
          record (emit env law reads_out request (status request.thread_id)
            (entered env law reads_out request s.state)) { cache = c } in
        let (t1, es2, ran, out1) =
          generate-relayed env law reads_out request p w u0 chosen es1 t out in
        let u1 : Service W R = sent env law reads_out request p w u0 chosen in
        let last : SseEvent =
          if is_sse_base e
          then sse_error e request.thread_id
          else internal_error request.thread_id in
        rw
          (
            served,
            miss,
            ran,
            fails,
            except_exception-raise e (at t1 u1) (report env request) other,
            yield_event-emit env law reads_out request last t1 u1,
          )
          (refl, refl, keep)
