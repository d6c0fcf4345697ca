-- ===== src/Orchestrator/Views.antt =====
-- What the stages of a stream leave alone: a view of the state that neither the tracker, the cache,
-- the providers nor the events before the last one change.
use sse_llm_streaming_servic.Base.{
  char_count, ℕ, ◌+◌, ◌≡◌, refl, String, Bool, true, false, Option, none, some, M, ok, ◌>>=◌, pure,
  throw, all_providers_down,
}
use Prim.Native.String.{◌++◌ as str_append}
use sse_llm_streaming_servic.Cache.Manager as Manager
use sse_llm_streaming_servic.Cache.Manager.{CacheManager}
use sse_llm_streaming_servic.Provider as Provider
use sse_llm_streaming_servic.Tracker.{ExecutionTracker, Traced}
use sse_llm_streaming_servic.Validators.{validate_query, validate_model}
use sse_llm_streaming_servic.Tracker.Summary.{get_execution_summary}
use sse_llm_streaming_servic.Orchestrator.{
  cache_key, result_of, Service, StreamRequest, Environment, Chunks, finished, failed, chunk,
  SseEvent, status, content, cached_content, complete, cached_complete, sse_error, internal_error,
  present, on_cache, on_providers, stage, yield_event, check_connection_limit, checked, validate,
  choose, relay, cleanup, generate, reply_cached, answer, serve,
}
use sse_llm_streaming_servic.Orchestrator.Effects.{Keeps, Keeps-then, track_stage-view}

-- The events after which a client expects no other.
unfoldable pub is_final : SseEvent → Bool
is_final (status t) = false
is_final (content t n r) = false
is_final (cached_content t) = false
is_final (complete t n l d) = true
is_final (cached_complete t) = true
is_final (sse_error e t) = true
is_final (internal_error t) = true

module _ {W R X : Type 0} (env : Environment W R) (view : Traced (Service W R) → X)
    (beside : (s : Traced (Service W R)) (t : ExecutionTracker)
      → view (record s { tracker = t }) ≡ view s)
    (cached : (s : Traced (Service W R)) (c : CacheManager String W)
      → view (record s { state = record s.state { cache = c } }) ≡ view s)
    (provided : (s : Traced (Service W R)) (p : Provider.World R)
      → view (record s { state = record s.state { providers = p } }) ≡ view s)
    (yields : (e : SseEvent) → is_final e ≡ false → Keeps view (yield_event env e)) where
  pub stage-view :
      {A : Type 0} (request : StreamRequest) (stage_id stage_name : String)
      (body : M (Traced (Service W R)) A)
      → Keeps view body
      → Keeps view (stage env request stage_id stage_name body)
  stage-view request stage_id stage_name body h =
      track_stage-view view beside env.md5 env.elapsed stage_id stage_name request.thread_id false
        body h

  pub validate-view : (request : StreamRequest) → Keeps view (validate env request)
  unfolding validate
  validate-view request =
      let limit : Unit {0} → M (Traced (Service W R)) (Unit {0}) =
        λ u s. checked env (check_connection_limit env s.state.active_connections) s in
      let model : Unit {0} → M (Traced (Service W R)) (Unit {0}) =
        λ u. checked env (result_of (validate_model env.rules request.model none)) >>= limit in
      Keeps-then view (checked env (result_of (validate_query env.rules request.query))) model
        (λ s. refl)
        (λ u.
          Keeps-then view (checked env (result_of (validate_model env.rules request.model none)))
            limit (λ s. refl) (λ v s. refl))

  pub choose-view : (request : StreamRequest) → Keeps view (choose env request)
  unfolding choose
  choose-view request =
      let found : Option String → M (Traced (Service W R)) String =
        λ provider. elim provider [ none ↦ throw all_providers_down | some p ↦ pure p ] in
      let select : M (Provider.World R) (Option String) =
        Provider.select_provider env.redis env.get_breaker env.construct request.provider in
      Keeps-then view (on_providers env select) found (λ s. provided s (select s.state.providers).1)
        (λ p. elim p as (λ q. Keeps view (found q)) [ none ↦ (λ s. refl) | some q ↦ (λ s. refl) ])

  pub relay-view :
      (chunks : Chunks) (text : String) (count : ℕ) → Keeps view (relay env chunks text count)
  unfolding relay is_final
  relay-view finished text count = λ s. refl
  relay-view (failed e) text count = λ s. refl
  relay-view (chunk piece finish_reason rest) text count =
      let more : M (Traced (Service W R)) (String × ℕ) =
        relay env rest (str_append text piece) (count + 1) in
      let next : Option String → M (Traced (Service W R)) (String × ℕ) =
        λ r. elim r [ none ↦ more | some reason ↦ pure (str_append text piece, count + 1) ] in
      Keeps-then view (yield_event env (content piece (count + 1) finish_reason))
        (λ u. next (present finish_reason)) (yields (content piece (count + 1) finish_reason) refl)
        (λ u. elim (present finish_reason) as (λ r. Keeps view (next r)) [
          | none ↦ relay-view rest (str_append text piece) (count + 1)
          | some reason ↦ (λ s. refl)
        ])

  pub cleanup-view :
      (request : StreamRequest) (text : String) → Keeps view (cleanup env request text)
  unfolding cleanup
  cleanup-view request text =
      let store : M (CacheManager String W) (Unit {0}) =
        Manager.set env.store (cache_key env request) text (some env.response_ttl) false in
      let timed : Unit {0} → M (Traced (Service W R)) ℕ =
        λ u s. (ok (get_execution_summary request.thread_id s.tracker).total_duration_ms, s) in
      Keeps-then view (on_cache env store) timed (λ s. cached s (store s.state.cache).1)
        (λ u s. refl)

  -- A property of calls that holds of a last event, and of a call that follows one that keeps the view.
  module _ (P : M (Traced (Service W R)) (Unit {0}) → Type 0)
      (P-then : (A : Type 0) (m : M (Traced (Service W R)) A)
          (k : A → M (Traced (Service W R)) (Unit {0}))
        → Keeps view m
        → ((a : A) → P (k a))
        → P (m >>= k))
      (P-last : (e : SseEvent) → is_final e ≡ true → P (yield_event env e)) where
    generate-property : (request : StreamRequest) → P (generate env request)
    unfolding generate is_final
    generate-property request =
        let last : String × ℕ → ℕ → M (Traced (Service W R)) (Unit {0}) =
          λ r d. yield_event env (complete request.thread_id r.1 (char_count r.0) d) in
        let sixth : String × ℕ → M (Traced (Service W R)) ℕ =
          λ r. stage env request "6" "Cleanup and caching" (cleanup env request r.0) in
        let after_fifth : String × ℕ → M (Traced (Service W R)) (Unit {0}) =
          λ r. sixth r >>= last r in
        let fifth : String → M (Traced (Service W R)) (String × ℕ) = λ p.
          stage env request "5" "LLM streaming"
            (relay env (env.chunks p request.query request.model) "" 0) in
        let after_fourth : String → M (Traced (Service W R)) (Unit {0}) =
          λ p. fifth p >>= after_fifth in
        let fourth : M (Traced (Service W R)) String =
          stage env request "4" "Provider selection" (choose env request) in
        let third : M (Traced (Service W R)) (Unit {0}) =
          stage env request "3" "Rate limit verification" (pure tt) in
        P-then (Unit {0}) third (λ u. fourth >>= after_fourth)
          (stage-view request "3" "Rate limit verification" (pure tt) (λ s. refl))
          (λ u.
            P-then String fourth after_fourth
              (stage-view request "4" "Provider selection" (choose env request)
                (choose-view request))
              (λ p.
                P-then (String × ℕ) (fifth p) after_fifth
                  (stage-view request "5" "LLM streaming"
                    (relay env (env.chunks p request.query request.model) "" 0)
                    (relay-view (env.chunks p request.query request.model) "" 0))
                  (λ r.
                    P-then ℕ (sixth r) (last r)
                      (stage-view request "6" "Cleanup and caching" (cleanup env request r.0)
                        (cleanup-view request r.0))
                      (λ d. P-last (complete request.thread_id r.1 (char_count r.0) d) refl))))

    answer-property : (request : StreamRequest) (text : Option String) → P (answer env request text)
    unfolding answer reply_cached is_final
    answer-property request none = generate-property request
    answer-property request (some text) =
        P-then (Unit {0}) (yield_event env (cached_content text))
          (λ u. yield_event env (cached_complete request.thread_id))
          (yields (cached_content text) refl) (λ u. P-last (cached_complete request.thread_id) refl)

    pub serve-property : (request : StreamRequest) → P (serve env request)
    unfolding serve is_final
    serve-property request =
        let lookup_cached : M (CacheManager String W) (Option String) =
          Manager.get env.store (cache_key env request) in
        let after_lookup : Option String → M (Traced (Service W R)) (Unit {0}) =
          λ c. answer env request (present c) in
        let after_status : Unit {0} → M (Traced (Service W R)) (Unit {0}) =
          λ u. on_cache env lookup_cached >>= after_lookup in
        let after_validation : Unit {0} → M (Traced (Service W R)) (Unit {0}) =
          λ u. yield_event env (status request.thread_id) >>= after_status in
        P-then (Unit {0}) (stage env request "1" "Request validation" (validate env request))
          after_validation
          (stage-view request "1" "Request validation" (validate env request)
            (validate-view request))
          (λ u.
            P-then (Unit {0}) (yield_event env (status request.thread_id)) after_status
              (yields (status request.thread_id) refl)
              (λ v.
                P-then (Option String) (on_cache env lookup_cached) after_lookup
                  (λ s. cached s (lookup_cached s.state.cache).1)
                  (λ c. answer-property request (present c))))
