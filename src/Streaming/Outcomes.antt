-- ===== src/Streaming/Outcomes.antt =====
-- How a direct stream of the service ends, and what the service itself tells the metrics of it.
use sse_llm_streaming_servic.Base.{
  ◌≡◌, refl, ap, ◌∙◌, String, List, [], ◌∷◌, Bool, true, Option, some, M, Exn, generator_exit,
  Result, ok, raise, ◌>>◌, then_with, handle_with, Bool-cases, inl, inr, ◌⊎◌, map,
}
use sse_llm_streaming_servic.Redis.{RedisClient}
use sse_llm_streaming_servic.Pool as Pool
use sse_llm_streaming_servic.Orchestrator.{Environment, SseEvent, except_exception}
use sse_llm_streaming_servic.Orchestrator.Views.{is_final}
use sse_llm_streaming_servic.Orchestrator.Ending.{Ended, finals, stream-Ended}
use sse_llm_streaming_servic.Streaming.{
  State, Failover, Call, Chunk, event, done, Metric, request_status, send, record_metric,
  relay_events, report, direct_body, generate_stream, decrement_connections, increment_connections,
}

-- The events so far end with a final one, the only one.
abbrev pub Relayed : List Chunk → Type 0
Relayed sent =
    (e : SseEvent) × (rest : List SseEvent) × (sent ≡ event e ∷ map event rest)
    × (is_final e ≡ true)
    × (finals rest ≡ 0)

module _ {P W R C Q : Type 0} where
  -- The generator was read to its end, or its consumer closed it.
  abbrev pub Outcome : List Metric → Result (Unit {0}) × State P W R C Q → Type 0
  Outcome before out =
      ((out.0 ≡ ok tt)
        × ((sent : List Chunk) × (out.1.sent ≡ done ∷ sent) × Relayed sent)
        × (out.1.reports ≡ request_status "success" ∷ before))
      ⊎ ((out.0 ≡ raise generator_exit) × (out.1.reports ≡ before))

  after_relay :
      (closes : List Chunk → Bool) (before : List Metric) (p : Result (Unit {0}) × State P W R C Q)
      → p.1.reports ≡ before
      → ((p.0 ≡ ok tt) × Relayed p.1.sent) ⊎ (p.0 ≡ raise generator_exit)
      → Outcome before
          (then_with p (λ _. send closes done >> record_metric (request_status "success")))
  unfolding send
  after_relay closes before (ok a, t) same (inl (e, relayed)) =
      elim (Bool-cases (closes (done ∷ t.sent))) [
        | inl b ↦ rw b (inr (refl, same))
        | inr b ↦
            rw b
              (inl (refl, (t.sent, refl, relayed), ap (λ ms. request_status "success" ∷ ms) same))
      ]
  after_relay closes before (raise x, t) same (inl (e, relayed)) = cc e
  after_relay closes before (ok a, t) same (inr e) = cc e
  after_relay closes before (raise x, t) same (inr e) = inr (e, same)

  passed_by :
      (before : List Metric) (p : Result (Unit {0}) × State P W R C Q)
      (h : Exn → M (State P W R C Q) (Unit {0}))
      → Outcome before p
      → Outcome before (except_exception p h)
  passed_by before (ok a, t) h out = out
  passed_by before (raise generator_exit, t) h out = out
  passed_by before (raise x, t) h (inl out) = cc out.0
  passed_by before (raise x, t) h (inr out) = cc out.0

  kept :
      (before : List Metric) (p f : Result (Unit {0}) × State P W R C Q)
      → (f.0 ≡ ok tt) × (f.1.sent ≡ p.1.sent) × (f.1.reports ≡ p.1.reports)
      → Outcome before p
      → Outcome before (then_with f (λ u t. (p.0, t)))
  kept before p (ok b, v) same (inl (e, (sent, now, relayed), told)) =
      inl (e, (sent, same.1 ∙ now, relayed), same.2 ∙ told)
  kept before p (ok b, v) same (inr (e, told)) = inr (e, same.2 ∙ told)
  kept before p (raise x, v) same out = cc same.0

  released :
      (w : Result (Unit {0}) × Pool.World P) (t : State P W R C Q)
      → w.0 ≡ ok tt
      → let f : Result (Unit {0}) × State P W R C Q =
          then_with (w.0, record t { pool = w.1 }) (λ _. decrement_connections) in
        (f.0 ≡ ok tt) × (f.1.sent ≡ t.sent) × (f.1.reports ≡ t.reports)
  released (ok a, w) t e = (refl, refl, refl)
  released (raise x, w) t e = cc e

of_Ended :
    (x : Result (Unit {0})) (es : List SseEvent)
    → (x ≡ ok tt) ⊎ (x ≡ raise generator_exit)
    → Ended [] x es
    → ((x ≡ ok tt) × Relayed (map event es)) ⊎ (x ≡ raise generator_exit)
unfolding Ended finals
of_Ended (ok u) es (inl e) (ev, rest, now, last, same) =
    inl (e, (ev, rest, ap (λ l. map event l) now, last, same))
of_Ended (raise x) es (inl e) h = cc e
of_Ended x es (inr e) h = inr e

always_ok : {S : Type 0} (p : Result (Unit {0}) × S) → (handle_with p (λ _ t. (ok tt, t))).0 ≡ ok tt
always_ok (ok tt, s) = refl
always_ok (raise e, s) = refl

release_connection-ok :
    {P : Type 0} (r : RedisClient P) (t : String) (u : Option String) (s : Pool.World P)
    → (Pool.release_connection r t u s).0 ≡ ok tt
unfolding Pool.release_connection
release_connection-ok r t u s = always_ok _

module _ {P W R C Q : Type 0} (r : RedisClient P) (env : Environment W R) (failover : Failover C Q)
    (call : Call) where
  relay_events-Relayed :
      (s : State P W R C Q)
      → let p = relay_events r env failover call s in
        ((p.0 ≡ ok tt) × Relayed p.1.sent) ⊎ (p.0 ≡ raise generator_exit)
  unfolding relay_events
  relay_events-Relayed s =
      let observed : Environment W R = record env {
        closes = λ events. call.closes (map event events);
      } in
      let before = record s.orchestrator { state = record s.orchestrator.state { emitted = [] } } in
      let ended = stream-Ended observed call.request before in of_Ended _ _ ended.0 ended.1

  -- Whatever the pool and its Redis do: a direct stream whose generator is read to its end sends the
  -- orchestrator's events, of which the last is a completion or an error and the only such event,
  -- and then the done mark; in both cases the service itself reports one success and no error. A
  -- stream that its consumer closes raises only that, and the service itself reports nothing.
  pub generate_stream-Outcome :
      (s : State P W R C Q) → Outcome s.reports (generate_stream r env failover call s)
  unfolding generate_stream direct_body
  generate_stream-Outcome s =
      let start = increment_connections s in
      let relayed = relay_events r env failover call start in
      let out : Result (Unit {0}) × State P W R C Q =
        except_exception (direct_body r env failover call start) (report r env failover call) in
      let given_back =
        Pool.release_connection r call.request.thread_id (some call.user_id) out.1.pool in
      kept s.reports out _ (released given_back out.1 (release_connection-ok r _ _ out.1.pool)) (
        passed_by s.reports (direct_body r env failover call start) (report r env failover call) (
          after_relay call.closes s.reports relayed (unfold relay_events in refl)
            (relay_events-Relayed start)))
