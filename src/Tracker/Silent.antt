-- ===== src/Tracker/Silent.antt =====
-- A stage whose body leaves the tracker alone.
use sse_llm_streaming_servic.Base.{
  ℕ, ◌≡◌, refl, String, List, [], ◌∷◌, ◌++◌, Bool-cases, false, M, Result, inl, inr,
}
use sse_llm_streaming_servic.Tracker.{
  ExecutionTracker, StageExecution, Traced, should_track, new_info, new_stage, nil, push,
  outcome_of, tracked, track_stage, close, stage,
}
use sse_llm_streaming_servic.Tracker.Nesting.{Outside, push-Outside, pop-top}

abbrev pub at : {S : Type 0} → ExecutionTracker → S → Traced S
at t u = record { tracker = t; state = u }

module _ {S : Type 0} (md5 : String → ℕ) (elapsed : Traced S → Traced S → ℕ)
    (thread_id : String) where
  module _ {A : Type 0} (stage_id stage_name : String) (body : M (Traced S) A)
      (x : ExecutionTracker → Result A) (u v : S)
      (silent : (t : ExecutionTracker) → body (at t u) ≡ (x t, at t v)) where
    -- Outside any other stage, such a stage returns what its body returns, and the thread is outside
    -- every stage again.
    unfoldable pub Ran : Result A × Traced S → Type 0
    Ran p =
        (t0 : ExecutionTracker) × (t1 : ExecutionTracker) × (es : List StageExecution) × (p
          ≡ (x t0, at t1 v))
        × Outside thread_id es t1

    tracked-Ran :
        (es : List StageExecution) (t : ExecutionTracker)
        → Outside thread_id es t
        → Ran (tracked md5 elapsed stage_id stage_name thread_id body (at t u))
    unfolding Ran tracked new_stage
    tracked-Ran es t h =
        let t0 = push (new_stage stage_id stage_name thread_id) thread_id t in
        let (st, ex) = push-Outside thread_id (new_stage stage_id stage_name thread_id) es t h in
        let d : ℕ = elapsed (at t0 u) (at t0 v) in
        let (t1, done, out) =
          pop-top thread_id (outcome_of (x t0)) d (new_info stage_id stage_name thread_id) nil es t0
            st ex in
        (
          t0,
          t1,
          es
              ++ close (outcome_of (x t0)) d (stage (new_info stage_id stage_name thread_id) nil)
                ∷ [],
          rw (silent t0, done) refl,
          out,
        )

    pub track_stage-Ran :
        (es : List StageExecution) (t : ExecutionTracker)
        → Outside thread_id es t
        → Ran (track_stage md5 elapsed stage_id stage_name thread_id false body (at t u))
    unfolding Ran track_stage
    track_stage-Ran es t h = elim (Bool-cases (should_track md5 t thread_id false)) [
      | inl e ↦ rw e (tracked-Ran es t h)
      | inr e ↦ rw e (t, t, es, silent t, h)
    ]
