-- ===== src/Orchestrator/Effects.antt =====
-- What the steps of a stream leave alone: a view of the state that no step changes, through the
-- sequence of calls and through a tracked stage.
use sse_llm_streaming_servic.Base.{
  ℕ, ◌≡◌, ◌∙◌, String, Bool, M, Result, ok, raise, then_with, ◌>>=◌, Bool-cases, inl, inr,
}
use sse_llm_streaming_servic.Tracker.{
  ExecutionTracker, Traced, should_track, new_stage, push, pop, outcome_of, popped, tracked,
  track_stage,
}

module _ {S X : Type 0} (view : Traced S → X) where
  -- A call after which the view is what it was.
  abbrev pub Keeps : {A : Type 0} → M (Traced S) A → Type 0
  Keeps m = (s : Traced S) → view (m s).1 ≡ view s

  then_with-view :
      {A B : Type 0} (x : X) (p : Result A × Traced S) (k : A → M (Traced S) B)
      → view p.1 ≡ x
      → ((a : A) → Keeps (k a))
      → view (then_with p k).1 ≡ x
  then_with-view x (ok a, s) k e h = h a s ∙ e
  then_with-view x (raise y, s) k e h = e

  pub Keeps-then :
      {A B : Type 0} (m : M (Traced S) A) (k : A → M (Traced S) B)
      → Keeps m
      → ((a : A) → Keeps (k a))
      → Keeps (m >>= k)
  Keeps-then m k hm hk s = then_with-view (view s) (m s) k (hm s) hk

  -- A view of what stands beside the tracker.
  module _
      (beside : (s : Traced S) (t : ExecutionTracker)
        → view (record s { tracker = t }) ≡ view s) where
    popped-view :
        {A : Type 0} (x : X) (t : Result ExecutionTracker) (a : Result A) (s : Traced S)
        → view s ≡ x
        → view (popped t a s).1 ≡ x
    popped-view x (ok t) a s e = beside s t ∙ e
    popped-view x (raise y) a s e = e

    module _ (md5 : String → ℕ) (elapsed : Traced S → Traced S → ℕ)
        (stage_id stage_name thread_id : String) where
      tracked-view :
          {A : Type 0} (body : M (Traced S) A)
          → Keeps body
          → Keeps (tracked md5 elapsed stage_id stage_name thread_id body)
      unfolding tracked
      tracked-view body h s =
          let t0 = push (new_stage stage_id stage_name thread_id) thread_id s.tracker in
          let s0 : Traced S = record s { tracker = t0 } in
          popped-view (view s)
            (pop (outcome_of (body s0).0) (elapsed s0 (body s0).1) thread_id (body s0).1.tracker)
            (body s0).0 (body s0).1 (h s0 ∙ beside s t0)

      pub track_stage-view :
          {A : Type 0} (force : Bool) (body : M (Traced S) A)
          → Keeps body
          → Keeps (track_stage md5 elapsed stage_id stage_name thread_id force body)
      unfolding track_stage
      track_stage-view force body h s =
          elim (Bool-cases (should_track md5 s.tracker thread_id force)) [
            | inl e ↦ rw e (tracked-view body h s)
            | inr e ↦ rw e (h s)
          ]
