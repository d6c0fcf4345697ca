-- ===== src/Orchestrator/Ending.antt =====
-- The last event of a stream: a client gets one, and only one, of the events that end a stream.
use sse_llm_streaming_servic.Base.{
  ℕ, ◌+◌, ◌≡◌, refl, ◌∙◌, List, [], ◌∷◌, Bool, true, false, M, Exn, Result, ok, raise,
  generator_exit, arith, then_with, ◌⊎◌, inl, inr, if◌then◌else◌, Bool-cases,
}
use sse_llm_streaming_servic.Tracker.{Traced}
use sse_llm_streaming_servic.Orchestrator.{
  Service, StreamRequest, Environment, SseEvent, sse_error, internal_error, is_sse_base, yielded,
  yield_event, serve, report, opened, stream, except_exception,
}
use sse_llm_streaming_servic.Orchestrator.Effects.{Keeps}
use sse_llm_streaming_servic.Orchestrator.Views.{is_final, serve-property}

-- The number of events that end a stream.
unfoldable pub finals : List SseEvent → ℕ
finals [] = 0
finals (e ∷ es) = let rest = finals es in if is_final e then rest + 1 else rest

-- From the events before to those after a call with a given result. On a return the newest event
-- ends the stream and no other does; a call whose consumer closed it may have sent that event.
unfoldable pub Ended : List SseEvent → Result (Unit {0}) → List SseEvent → Type 0
Ended before (ok u) now =
    (e : SseEvent) × (rest : List SseEvent) × (now ≡ e ∷ rest)
    × (is_final e ≡ true)
    × (finals rest ≡ finals before)
Ended before (raise generator_exit) now =
    (finals now ≡ finals before) ⊎ (finals now ≡ finals before + 1)
Ended before (raise e) now = finals now ≡ finals before

Ended-same :
    (before now : List SseEvent) (e : Exn) → finals now ≡ finals before → Ended before (raise e) now
unfolding Ended
Ended-same before now generator_exit h = inl h
Ended-same before now _ h = h

Ended-from :
    (a b c : List SseEvent) (x : Result (Unit {0}))
    → finals a ≡ finals b
    → Ended a x c
    → Ended b x c
unfolding Ended
Ended-from a b c (ok u) h (e, rest, now, last, same) = (e, rest, now, last, same ∙ h)
Ended-from a b c (raise generator_exit) h (inl same) = inl (same ∙ h)
Ended-from a b c (raise generator_exit) h (inr more) = inr (omega arith)
Ended-from a b c (raise _) h same = same ∙ h

module _ {W R : Type 0} (env : Environment W R) where
  abbrev ends : Traced (Service W R) → ℕ
  ends s = finals s.state.emitted

  abbrev Ending : M (Traced (Service W R)) (Unit {0}) → Type 0
  Ending m = (s : Traced (Service W R)) → Ended s.state.emitted (m s).0 (m s).1.state.emitted

  yielded-ends :
      (e : SseEvent) (s : Traced (Service W R)) (b : Bool)
      → is_final e ≡ false
      → ends (yielded env e s b).1 ≡ ends s
  unfolding finals
  yielded-ends e s true f = rw f refl
  yielded-ends e s false f = rw f refl

  yield_event-ends : (e : SseEvent) → is_final e ≡ false → Keeps ends (yield_event env e)
  unfolding yield_event
  yield_event-ends e f s = yielded-ends e s (env.closes (e ∷ s.state.emitted)) f

  yielded-Ended :
      (e : SseEvent) (s : Traced (Service W R)) (b : Bool)
      → is_final e ≡ true
      → Ended s.state.emitted (yielded env e s b).0 (yielded env e s b).1.state.emitted
  unfolding Ended finals
  yielded-Ended e s true f = inr (rw f refl)
  yielded-Ended e s false f = (e, s.state.emitted, refl, f, refl)

  yield_event-Ended : (e : SseEvent) → is_final e ≡ true → Ending (yield_event env e)
  unfolding yield_event
  yield_event-Ended e f s = yielded-Ended e s (env.closes (e ∷ s.state.emitted)) f

  then_with-Ended :
      (b : List SseEvent) (A : Type 0) (p : Result A × Traced (Service W R))
      (k : A → M (Traced (Service W R)) (Unit {0}))
      → ends p.1 ≡ finals b
      → ((a : A) → Ending (k a))
      → Ended b (then_with p k).0 (then_with p k).1.state.emitted
  then_with-Ended b A (ok a, s) k h hk =
      Ended-from s.state.emitted b (k a s).1.state.emitted (k a s).0 h (hk a s)
  then_with-Ended b A (raise e, s) k h hk = Ended-same b s.state.emitted e h

  serve-Ended : (request : StreamRequest) → Ending (serve env request)
  serve-Ended request =
      serve-property env ends (λ s t. refl) (λ s c. refl) (λ s p. refl)
        (λ e f. yield_event-ends e f) Ending
        (λ A m k h hk s. then_with-Ended s.state.emitted A (m s) k (h s) hk)
        (λ e f. yield_event-Ended e f) request

  -- A result that is `ok`, or the exception of a consumer that closed the generator.
  abbrev IsQuiet : Result (Unit {0}) → Type 0
  IsQuiet x = (x ≡ ok tt) ⊎ (x ≡ raise generator_exit)

  yielded-IsQuiet :
      (e : SseEvent) (s : Traced (Service W R)) (b : Bool) → IsQuiet (yielded env e s b).0
  yielded-IsQuiet e s true = inr refl
  yielded-IsQuiet e s false = inl refl

  report-Ended : (request : StreamRequest) (x : Exn) → Ending (report env request x)
  unfolding report is_final
  report-Ended request x = elim (Bool-cases (is_sse_base x)) [
    | inl e ↦ rw e (yield_event-Ended (sse_error x request.thread_id) refl)
    | inr e ↦ rw e (yield_event-Ended (internal_error request.thread_id) refl)
  ]

  report-IsQuiet :
      (request : StreamRequest) (x : Exn) (s : Traced (Service W R))
      → IsQuiet (report env request x s).0
  unfolding report yield_event
  report-IsQuiet request x s = yielded-IsQuiet _ s _

  except_exception-Ended :
      (b : List SseEvent) (p : Result (Unit {0}) × Traced (Service W R)) (request : StreamRequest)
      → Ended b p.0 p.1.state.emitted
      → let q = except_exception p (report env request) in
        IsQuiet q.0 × Ended b q.0 q.1.state.emitted
  unfolding Ended
  except_exception-Ended b (ok tt, s) request h = (inl refl, h)
  except_exception-Ended b (raise generator_exit, s) request h = (inr refl, h)
  except_exception-Ended b (raise x, s) request h =
      (report-IsQuiet request x s, Ended-from s.state.emitted b _ _ h (report-Ended request x s))

  -- A stream ends without an exception, or with that of a consumer that closed it. In the first case its
  -- newest event is a completion or an error, and it is the only such event that the stream sent; in
  -- the second the stream sent at most one.
  pub stream-Ended :
      (request : StreamRequest) (s : Traced (Service W R))
      → let out = stream env request s in
        ((out.0 ≡ ok tt) ⊎ (out.0 ≡ raise generator_exit))
        × Ended s.state.emitted out.0 out.1.state.emitted
  unfolding stream
  stream-Ended request s =
      except_exception-Ended s.state.emitted (serve env request (opened env s)) request
        (serve-Ended request (opened env s))
