-- ===== src/Orchestrator/Relayed.antt =====
-- What a stream relays of a provider's chunks.
use sse_llm_streaming_servic.Base.{
  char_count, ℕ, ◌+◌, ◌≡◌, refl, String, List, [], ◌∷◌, false, Option, none, some, M, Exn, Result,
  ok, raise, then_with, ◌>>=◌, pure, Option-cases, inl, inr,
}
use Prim.Native.String.{◌++◌ as str_append}
use sse_llm_streaming_servic.Cache.Store.{IsStore}
use sse_llm_streaming_servic.Provider as Provider
use sse_llm_streaming_servic.Tracker.{ExecutionTracker, StageExecution, Traced}
use sse_llm_streaming_servic.Tracker.Nesting.{Outside}
use sse_llm_streaming_servic.Tracker.Silent.{at, Ran, track_stage-Ran}
use sse_llm_streaming_servic.Orchestrator.{
  Service, StreamRequest, Environment, Chunks, finished, failed, chunk, SseEvent, content, complete,
  present, yield_event, choose, relay, cleanup, generate, stage,
}
use sse_llm_streaming_servic.Orchestrator.Runs.{yield_event-emit}

-- The chunks up to the first that has a finish reason.
unfoldable pub pieces : Chunks → List (String × Option String)
pieces finished = []
pieces (failed e) = []
pieces (chunk piece r rest) =
    let more = pieces rest in (piece, r) ∷ elim (present r) [ none ↦ more | some x ↦ [] ]

-- The failure that comes before it.
unfoldable pub failure : Chunks → Option Exn
failure finished = none
failure (failed e) = some e
failure (chunk piece r rest) =
    let more = failure rest in elim (present r) [ none ↦ more | some x ↦ none ]

failure-more :
    (piece : String) (r : Option String) (rest : Chunks)
    → present r ≡ none
    → failure (chunk piece r rest) ≡ failure rest
unfolding failure
failure-more piece r rest e = rw (e, failure) refl

failure-stop :
    (piece x : String) (r : Option String) (rest : Chunks)
    → present r ≡ some x
    → failure (chunk piece r rest) ≡ none
unfolding failure
failure-stop piece x r rest e = rw (e, failure) refl

unfoldable pub text_of : String → List (String × Option String) → String
text_of text [] = text
text_of text ((piece, r) ∷ ps) = text_of (str_append text piece) ps

unfoldable pub count_of : ℕ → List (String × Option String) → ℕ
count_of n [] = n
count_of n (p ∷ ps) = count_of (n + 1) ps

-- The events, the newest first, numbered from the one after `n`.
unfoldable pub contents : ℕ → List (String × Option String) → List SseEvent → List SseEvent
contents n [] es = es
contents n ((piece, r) ∷ ps) es = contents (n + 1) ps (content piece (n + 1) r ∷ es)

-- What the loop returns.
abbrev pub ended_with : Option Exn → String × ℕ → Result (String × ℕ)
ended_with none r = ok r
ended_with (some e) r = raise e

module _ {W R : Type 0} (env : Environment W R) (law : IsStore env.store)
    (reads_out : (es : List SseEvent) → env.closes es ≡ false) (request : StreamRequest) where
  pub relay_lem :
      (chunks : Chunks) (text : String) (n : ℕ) (t : ExecutionTracker) (u : Service W R)
      → relay env chunks text n (at t u) ≡ (
        ended_with (failure chunks) (text_of text (pieces chunks), count_of n (pieces chunks)),
        at t (record u { emitted = contents n (pieces chunks) u.emitted }),
      )
  unfolding relay pieces failure text_of count_of contents
  relay_lem finished text n t u = refl
  relay_lem (failed e) text n t u = refl
  relay_lem (chunk piece r rest) text n t u =
      let u1 : Service W R = record u { emitted = content piece (n + 1) r ∷ u.emitted } in
      elim (Option-cases (present r)) [
        | inl e ↦
            rw
              (
                yield_event-emit env law reads_out request (content piece (n + 1) r) t u,
                failure-more piece r rest e,
                e,
              )
              (relay_lem rest (str_append text piece) (n + 1) t u1)
        | inr (x, e) ↦
            rw
              (
                yield_event-emit env law reads_out request (content piece (n + 1) r) t u,
                failure-stop piece x r rest e,
                e,
              )
              refl
      ]

  module _ (p : String) (w : Provider.World R) (u : Service W R)
      (chosen : Provider.select_provider env.redis env.get_breaker env.construct request.provider
          u.providers
        ≡ (ok (some p), w)) where
    abbrev pub chunks : Chunks
    chunks = env.chunks p request.query request.model

    abbrev pub got : List (String × Option String)
    got = pieces chunks

    -- After the choice, and after the chunks.
    abbrev pub turned : Service W R
    turned = record u { providers = w }

    abbrev pub sent : Service W R
    sent = record turned { emitted = contents 0 got u.emitted }

    choose-run : (t : ExecutionTracker) → choose env request (at t u) ≡ (ok p, at t turned)
    unfolding choose
    choose-run t = rw chosen refl

    -- The result of the chunks, with what follows a miss up to them.
    abbrev pub relayed : Result (String × ℕ)
    relayed = ended_with (failure chunks) (text_of "" got, count_of 0 got)

    abbrev pub rest_of : String × ℕ → M (Traced (Service W R)) (Unit {0})
    rest_of r = stage env request "6" "Cleanup and caching" (cleanup env request r.0) >>= λ d.
        yield_event env (complete request.thread_id r.1 (char_count r.0) d)

    pub generate-relayed :
        (es : List StageExecution) (t : ExecutionTracker)
        → Outside request.thread_id es t
        → (t' : ExecutionTracker) × (es' : List StageExecution) × (generate env request (at t u)
            ≡ then_with (relayed, at t' sent) rest_of)
          × Outside request.thread_id es' t'
    unfolding generate Ran
    generate-relayed es t o =
        let (t0, t1, es1, ran1, o1) =
          track_stage-Ran env.md5 env.elapsed request.thread_id "3" "Rate limit verification"
            (pure tt) (λ x. ok tt) u u (λ x. refl) es t o in
        let (t2, t3, es3, ran3, o3) =
          track_stage-Ran env.md5 env.elapsed request.thread_id "4" "Provider selection"
            (choose env request) (λ x. ok p) u turned choose-run es1 t1 o1 in
        let (t4, t5, es5, ran5, o5) =
          track_stage-Ran env.md5 env.elapsed request.thread_id "5" "LLM streaming"
            (relay env chunks "" 0) (λ x. relayed) turned sent (λ x. relay_lem chunks "" 0 x turned)
            es3 t3 o3 in
        (t5, es5, rw (ran1, ran3, ran5) refl, o5)
