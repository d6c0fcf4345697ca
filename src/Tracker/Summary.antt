-- ===== src/Tracker/Summary.antt =====
-- `get_execution_summary`, and what a tracked stage adds to it.
use sse_llm_streaming_servic.Base.{
  ℕ, ◌+◌, ◌≡◌, refl, String, List, [], ◌∷◌, ◌++◌, Bool, true, false, Option, none, some, M, Exn,
  generator_exit, arith, length, ◌&&◌, if◌then◌else◌,
}
use sse_llm_streaming_servic.Tracker.{
  ExecutionTracker, StageExecution, Stages, Stage, stage, Traced, entries, new_info, ended, close,
  outcome_of, tracked,
}
use sse_llm_streaming_servic.Tracker.Nesting.{Nested, Outside, begun, recorded, tracked-Outside}

abbrev info : StageExecution → Stage
info (stage i subs) = i

-- The durations of the stages that have one.
unfoldable pub total_duration : List StageExecution → ℕ
total_duration [] = 0
total_duration (e ∷ es) = elim (info e).duration_ms [
  | none ↦ total_duration es
  | some d ↦ d + total_duration es
]

unfoldable pub failed_stages : List StageExecution → List StageExecution
failed_stages [] = []
failed_stages (e ∷ es) = let rest = failed_stages es in if (info e).success then rest else e ∷ rest

abbrev is_empty : List StageExecution → Bool
is_empty [] = true
is_empty (e ∷ es) = false

pub record Summary : Type 0 where
  pub total_duration_ms : ℕ
  pub stage_count : ℕ
  pub stages : List StageExecution
  pub success : Bool
  pub failures : List StageExecution

-- A thread that is not known has the summary of no stages.
unfoldable pub get_execution_summary : String → ExecutionTracker → Summary
get_execution_summary thread_id t =
    let es = entries thread_id t.executions in
    record {
      total_duration_ms = total_duration es;
      stage_count = length es;
      stages = es;
      success = is_empty (failed_stages es);
      failures = failed_stages es;
    }

-- Whether an outcome is recorded as a success.
unfoldable pub is_success : Option Exn → Bool
is_success none = true
is_success (some generator_exit) = true
is_success (some e) = false

total_duration-snoc :
    (es : List StageExecution) (o : Option Exn) (d : ℕ) (e : StageExecution)
    → total_duration (es ++ close o d e ∷ []) ≡ total_duration es + d
unfolding total_duration close
total_duration-snoc [] o d (stage i subs) = omega arith
total_duration-snoc (x ∷ es) o d e = ground (arith, total_duration-snoc es o d e)

length-snoc :
    (es : List StageExecution) (e : StageExecution) → length (es ++ e ∷ []) ≡ length es + 1
length-snoc [] e = omega arith
length-snoc (x ∷ es) e = omega (arith, length-snoc es e)

ended-success : (o : Option Exn) (i : Stage) → i.success ≡ true → (ended o i).success ≡ is_success o
unfolding ended is_success
ended-success none i e = refl
ended-success (some generator_exit) i e = e
ended-success (some _) i e = refl

failed_stages-snoc :
    (es : List StageExecution) (o : Option Exn) (d : ℕ) (i : Stage) (subs : Stages)
    → i.success ≡ true
    → is_empty (failed_stages (es ++ close o d (stage i subs) ∷ []))
      ≡ is_empty (failed_stages es) && is_success o
unfolding failed_stages close
failed_stages-snoc [] o d i subs e = ground (arith, ended-success o i e)
failed_stages-snoc (x ∷ es) o d i subs e = ground (arith, failed_stages-snoc es o d i subs e)

module _ {S A : Type 0} (md5 : String → ℕ) (elapsed : Traced S → Traced S → ℕ) (thread_id : String)
    (stage_id stage_name : String) (body : M (Traced S) A) where
  -- A tracked stage outside any other adds one stage to the summary of its thread, and its time to
  -- the total; the summary stays successful if it was so and the body returned, or was closed as a
  -- generator.
  pub get_execution_summary-tracked :
      (es : List StageExecution) (s : Traced S)
      → Nested thread_id body
      → Outside thread_id es s.tracker
      → let s0 = begun md5 elapsed thread_id stage_id stage_name body s in
        let before = get_execution_summary thread_id s.tracker in
        let now =
          get_execution_summary thread_id
            (tracked md5 elapsed stage_id stage_name thread_id body s).1.tracker in
        (now.stage_count ≡ before.stage_count + 1)
        × (now.total_duration_ms ≡ before.total_duration_ms + elapsed s0 (body s0).1)
        × (now.success ≡ before.success && is_success (outcome_of (body s0).0))
  unfolding get_execution_summary
  get_execution_summary-tracked es s nb h =
      let (same, (subs, after)) =
        tracked-Outside md5 elapsed thread_id stage_id stage_name body es s nb h in
      let s0 : Traced S = begun md5 elapsed thread_id stage_id stage_name body s in
      let outcome : Option Exn = outcome_of (body s0).0 in
      let d : ℕ = elapsed s0 (body s0).1 in
      let i : Stage = new_info stage_id stage_name thread_id in
      rw (after.recorded, h.recorded)
        (unfold recorded in
          (
            length-snoc es (close outcome d (stage i subs)),
            total_duration-snoc es outcome d (stage i subs),
            failed_stages-snoc es outcome d i subs refl,
          ))
