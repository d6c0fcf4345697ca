-- ===== src/Tracker.antt =====
-- The execution tracker, src/core/observability/execution_tracker.py. A stack has the innermost
-- stage first. Logging, metadata and the time stamps are left out; a duration is what the
-- parameter `elapsed` measures between the state at the start and the one at the end. MD5 is a
-- parameter. Python's stage on the stack and the one that a context manager holds are one object,
-- and so they are one here: the entry that is popped is the one that was pushed.
pub mod Nesting
pub mod Silent
pub mod Summary
use sse_llm_streaming_servic.Base.{
  ℕ, ◌+◌, ◌*◌, ◌%◌, String, List, [], ◌∷◌, ◌++◌, Bool, true, false, Option, none, some, M, Exn,
  Result, ok, raise, key_error, generator_exit, index_error, then_with, ltb, leb, if◌then◌else◌,
  ite, string_discrete,
}
use sse_llm_streaming_servic.Base.Dict.{Dict, lookup, insert, remove}

-- The fields of a `StageExecution` but its sub-stages.
pub record Stage : Type 0 where
  pub stage_id : String
  pub stage_name : String
  pub thread_id : String
  pub duration_ms : Option ℕ
  pub success : Bool
  pub failure : Option Exn

mutual
  pub data StageExecution : Type 0 where
    stage : Stage → Stages → StageExecution

  pub data Stages : Type 0 where
    nil : Stages
    snoc : Stages → StageExecution → Stages

-- The sample rate counts millionths.
pub record ExecutionTracker : Type 0 where
  pub executions : Dict (List StageExecution)
  pub stage_stack : Dict (List StageExecution)
  pub tracking_enabled : Bool
  pub sample_rate : ℕ

-- `hash % 100 < sample_rate * 100`, after the tests that come first.
unfoldable pub should_track : (String → ℕ) → ExecutionTracker → String → Bool → Bool
should_track md5 t thread_id force =
    if force
    then true
    else (if t.tracking_enabled
        then (if leb 1000000 t.sample_rate
            then true
            else ltb (md5 thread_id % 100 * 10000) t.sample_rate)
        else false)

abbrev pub new_info : String → String → String → Stage
new_info stage_id stage_name thread_id = record {
  stage_id = stage_id;
  stage_name = stage_name;
  thread_id = thread_id;
  duration_ms = none;
  success = true;
  failure = none;
}

unfoldable pub new_stage : String → String → String → StageExecution
new_stage stage_id stage_name thread_id = stage (new_info stage_id stage_name thread_id) nil

-- `parent.substages.append(execution)`
unfoldable pub add_substage : StageExecution → StageExecution → StageExecution
add_substage e (stage i subs) = stage i (snoc subs e)

-- A value of `_stage_stack` or `_executions`, with no entry read as an empty list.
unfoldable pub entries : String → Dict (List StageExecution) → List StageExecution
entries thread_id d = elim (lookup thread_id d) [ none ↦ [] | some es ↦ es ]

-- The storage for a new thread, and the push.
unfoldable pub push : StageExecution → String → ExecutionTracker → ExecutionTracker
push e thread_id t = elim (lookup thread_id t.executions) [
  | none ↦ record t {
    executions = insert thread_id [] t.executions;
    stage_stack = insert thread_id (e ∷ []) t.stage_stack;
  }
  | some es ↦ record t {
    stage_stack = insert thread_id (e ∷ entries thread_id t.stage_stack) t.stage_stack;
  }
]

-- How the stage ended: an exception that is an `Exception` marks it as failed; a generator that is
-- closed does not.
unfoldable pub ended : Option Exn → Stage → Stage
ended none i = record i { success = true }
ended (some generator_exit) i = i
ended (some e) i = record i { success = false; failure = some e }

unfoldable pub close : Option Exn → ℕ → StageExecution → StageExecution
close outcome duration (stage i subs) =
    let j : Stage = ended outcome i in stage (record j { duration_ms = some duration }) subs

-- The popped stage goes to its parent, or to the executions of its thread.
unfoldable pub attach :
    StageExecution → String → List StageExecution → ExecutionTracker → Result ExecutionTracker
attach e thread_id (parent ∷ rest) t =
    ok (record t { stage_stack = insert thread_id (add_substage e parent ∷ rest) t.stage_stack })
attach e thread_id [] t = elim (lookup thread_id t.executions) [
  | none ↦ raise key_error
  | some es ↦ ok (record t {
    stage_stack = insert thread_id [] t.stage_stack;
    executions = insert thread_id (es ++ e ∷ []) t.executions;
  })
]

unfoldable pub pop_stack :
    Option Exn → ℕ → String → List StageExecution → ExecutionTracker → Result ExecutionTracker
pop_stack outcome duration thread_id [] t = raise index_error
pop_stack outcome duration thread_id (e ∷ rest) t =
    attach (close outcome duration e) thread_id rest t

-- The `finally` of `track_stage`.
unfoldable pub pop : Option Exn → ℕ → String → ExecutionTracker → Result ExecutionTracker
pop outcome duration thread_id t = elim (lookup thread_id t.stage_stack) [
  | none ↦ raise key_error
  | some stack ↦ pop_stack outcome duration thread_id stack t
]

unfoldable pub clear_thread_data : String → ExecutionTracker → ExecutionTracker
clear_thread_data thread_id t = record t {
  executions = remove thread_id t.executions;
  stage_stack = remove thread_id t.stage_stack;
}

-- The thread of a sub-stage: the first one that has an active stage.
unfoldable pub active_thread : Dict (List StageExecution) → Option String
active_thread [] = none
active_thread ((thread_id, []) ∷ d) = active_thread d
active_thread ((thread_id, e ∷ es) ∷ d) = some thread_id

-- A computation beside a tracker.
pub record Traced (S : Type 0) : Type 0 where
  pub tracker : ExecutionTracker
  pub state : S

abbrev pub outcome_of {ℓ} : {A : Type ℓ} → Result A → Option Exn
outcome_of (ok a) = none
outcome_of (raise e) = some e

-- The result of the body, unless the `finally` raises itself.
abbrev pub popped :
    {S A : Type 0} → Result ExecutionTracker → Result A → Traced S → Result A × Traced S
popped (ok t) a s = (a, record s { tracker = t })
popped (raise e) a s = (raise e, s)

module _ {S : Type 0} (md5 : String → ℕ) (elapsed : Traced S → Traced S → ℕ) where
  -- The tracked branch of `track_stage`, around a body.
  unfoldable pub tracked : {A : Type 0} → String → String → String → M (Traced S) A → M (Traced S) A
  tracked stage_id stage_name thread_id body s =
      let s0 : Traced S = record s {
        tracker = push (new_stage stage_id stage_name thread_id) thread_id s.tracker;
      } in
      let (a, s1) = body s0 in popped (pop (outcome_of a) (elapsed s0 s1) thread_id s1.tracker) a s1

  unfoldable pub track_stage :
      {A : Type 0} → String → String → String → Bool → M (Traced S) A → M (Traced S) A
  track_stage stage_id stage_name thread_id force body s =
      if should_track md5 s.tracker thread_id force
      then tracked stage_id stage_name thread_id body s
      else body s

  unfoldable pub track_substage : {A : Type 0} → String → String → M (Traced S) A → M (Traced S) A
  track_substage stage_id stage_name body s = elim (active_thread s.tracker.stage_stack) [
    | none ↦ body s
    | some thread_id ↦ track_stage stage_id stage_name thread_id false body s
  ]
