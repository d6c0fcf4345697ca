-- ===== src/Orchestrator/Runs.antt =====
-- Streams that run to the end over a cache that represents a map, for a consumer that reads them out.
use sse_llm_streaming_servic.Base.{
  none, ◌+◌, ◌≡◌, refl, String, List, ◌∷◌, false, Option, some, ok, leb,
}
use sse_llm_streaming_servic.Cache.Store.{IsStore}
use sse_llm_streaming_servic.Cache.Manager as Manager
use sse_llm_streaming_servic.Cache.Manager.{CacheManager}
use sse_llm_streaming_servic.Cache.Manager.Refinement.{Represents, get_map}
use sse_llm_streaming_servic.Tracker.{ExecutionTracker, StageExecution, Traced}
use sse_llm_streaming_servic.Tracker.Nesting.{Outside}
use sse_llm_streaming_servic.Validators.{passes, validate_query, validate_model}
use sse_llm_streaming_servic.Tracker.Silent.{at, Ran, track_stage-Ran}
use sse_llm_streaming_servic.Orchestrator.{
  cache_key, Service, StreamRequest, Environment, SseEvent, status, cached_content, cached_complete,
  present, on_cache, yield_event, check_connection_limit, validate, reply_cached, answer, serve,
  opened, stream,
}

module _ {W R : Type 0} (env : Environment W R) (law : IsStore env.store)
    (reads_out : (es : List SseEvent) → env.closes es ≡ false) (request : StreamRequest) where
  -- What the validators ask of a request that arrives.
  pub record Admitted (s : Traced (Service W R)) : Type 0 where
    pub query : validate_query env.rules request.query ≡ passes
    pub model : validate_model env.rules request.model none ≡ passes
    pub below : leb env.max_connections (s.state.active_connections + 1) ≡ false

  abbrev pub key : String
  key = cache_key env request

  abbrev pub emit : SseEvent → Service W R → Service W R
  emit e u = record u { emitted = e ∷ u.emitted }

  pub yield_event-emit :
      (e : SseEvent) (t : ExecutionTracker) (u : Service W R)
      → yield_event env e (at t u) ≡ (ok tt, at t (emit e u))
  unfolding yield_event
  yield_event-emit e t u = rw (reads_out (e ∷ u.emitted)) refl

  abbrev pub entered : Service W R → Service W R
  entered u = record u { active_connections = u.active_connections + 1 }

  validate-ok :
      (u : Service W R) (t : ExecutionTracker)
      → validate_query env.rules request.query ≡ passes
      → validate_model env.rules request.model none ≡ passes
      → leb env.max_connections u.active_connections ≡ false
      → validate env request (at t u) ≡ (ok tt, at t u)
  unfolding validate check_connection_limit
  validate-ok u t a b c = rw (a, b, c) refl

  -- The lookup of the key.
  on_cache-get :
      (f : String → Option String) (t : ExecutionTracker) (u : Service W R)
      → Represents env.store law f u.cache
      → (c : CacheManager String W) × (on_cache env (Manager.get env.store key) (at t u)
          ≡ (ok (f key), at t (record u { cache = c })))
        × Represents env.store law f c
  on_cache-get f t u h =
      let (c, run, keep) = get_map env.store law f u.cache h key in (c, rw run refl, keep)

  -- Up to the answer.
  pub serve-answer :
      (f : String → Option String) (es : List StageExecution) (s : Traced (Service W R))
      → Admitted s
      → Outside request.thread_id es s.tracker
      → Represents env.store law f s.state.cache
      → (t : ExecutionTracker) × (es' : List StageExecution) × (c : CacheManager String W) × (serve
            env request
            (opened env s)
          ≡ answer env request
              (present (f key))
              (at t (record (emit (status request.thread_id) (entered s.state)) { cache = c })))
        × Outside request.thread_id es' t
        × Represents env.store law f c
  unfolding serve Ran
  serve-answer f es s a o r =
      let u : Service W R = entered s.state in
      let (t0, t1, es1, ran, out) =
        track_stage-Ran env.md5 env.elapsed request.thread_id "1" "Request validation"
          (validate env request) (λ t. ok tt) u u (λ t. validate-ok u t a.query a.model a.below) es
          s.tracker o in
      let (c, got, keep) = on_cache-get f t1 (emit (status request.thread_id) u) r in
      (t1, es1, c, rw (ran, yield_event-emit (status request.thread_id) t1 u, got) refl, out, keep)

  -- A consumer reads the stream to its end, the validators and the limit let the request pass, its thread is
  -- outside every stage, and the cache represents a map with a text for it that is not empty. Then the stream sends
  -- its status, that text and its completion, the providers stay as they are, and the cache still represents
  -- the map.
  pub stream-cached :
      (f : String → Option String) (text : String) (es : List StageExecution)
      (s : Traced (Service W R))
      → Admitted s
      → Outside request.thread_id es s.tracker
      → Represents env.store law f s.state.cache
      → present (f key) ≡ some text
      → let out = stream env request s in
        (out.0 ≡ ok tt)
        × (out.1.state.emitted
            ≡ cached_complete request.thread_id
              ∷ cached_content text
              ∷ status request.thread_id
              ∷ s.state.emitted)
        × (out.1.state.providers ≡ s.state.providers)
        × Represents env.store law f out.1.state.cache
  unfolding stream answer reply_cached
  stream-cached f text es s a o r known =
      let (t, es1, c, served, out, keep) = serve-answer f es s a o r in
      let u0 : Service W R = record (emit (status request.thread_id) (entered s.state)) {
        cache = c;
      } in
      let u1 : Service W R = emit (cached_content text) u0 in
      rw
        (
          served,
          known,
          yield_event-emit (cached_content text) t u0,
          yield_event-emit (cached_complete request.thread_id) t u1,
        )
        (refl, refl, refl, keep)
