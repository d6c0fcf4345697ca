-- ===== src/Tracker/Nesting.antt =====
-- Stages nest: whatever a body does, its stage is closed, and goes to its parent or to its thread.
use sse_llm_streaming_servic.Base.{
  ℕ, ◌≡◌, refl, sym, ap, String, List, [], ◌∷◌, ◌++◌, Option, some, M, Exn, Result, ok, raise,
  then_with, ◌>>=◌, arith, Option-cases, inl, inr,
}
use sse_llm_streaming_servic.Base.Dict.{lookup, insert, lookup-insert}
use sse_llm_streaming_servic.Tracker.{
  ExecutionTracker, StageExecution, Stages, Stage, stage, nil, snoc, Traced, new_info, new_stage,
  add_substage, entries, push, close, attach, pop_stack, pop, outcome_of, tracked,
}

-- Sub-stages followed by others.
unfoldable pub join : Stages → Stages → Stages
join xs nil = xs
join xs (snoc ys y) = snoc (join xs ys) y

join_assoc : (xs ys zs : Stages) → join (join xs ys) zs ≡ join xs (join ys zs)
unfolding join
join_assoc xs ys nil = refl
join_assoc xs ys (snoc zs z) = ap (λ us. snoc us z) (join_assoc xs ys zs)

-- A thread inside a stage: the stage with its sub-stages so far, those around it, and what the
-- thread has recorded.
pub record Inside (thread_id : String) (i : Stage) (subs : Stages) (rest : List StageExecution)
    (es : List StageExecution) (t : ExecutionTracker) : Type 0 where
  pub stack : lookup thread_id t.stage_stack ≡ some (stage i subs ∷ rest)
  pub recorded : lookup thread_id t.executions ≡ some es

-- A thread outside every stage, with what it has recorded.
pub record Outside (thread_id : String) (es : List StageExecution) (t : ExecutionTracker)
    : Type 0 where
  pub stack : entries thread_id t.stage_stack ≡ []
  pub recorded : entries thread_id t.executions ≡ es

module _ (thread_id : String) where
  push-Inside :
      (e : StageExecution) (i : Stage) (subs : Stages) (rest es : List StageExecution)
      (t : ExecutionTracker)
      → Inside thread_id i subs rest es t
      → (lookup thread_id (push e thread_id t).stage_stack ≡ some (e ∷ stage i subs ∷ rest))
        × (lookup thread_id (push e thread_id t).executions ≡ some es)
  unfolding push entries
  push-Inside e i subs rest es t h = ground (
    arith,
    h.stack,
    h.recorded,
    lookup-insert thread_id thread_id (e ∷ stage i subs ∷ rest) t.stage_stack,
  )

  pub push-Outside :
      (e : StageExecution) (es : List StageExecution) (t : ExecutionTracker)
      → Outside thread_id es t
      → (lookup thread_id (push e thread_id t).stage_stack ≡ some (e ∷ []))
        × (lookup thread_id (push e thread_id t).executions ≡ some es)
  unfolding push entries
  push-Outside e es t h = elim (Option-cases (lookup thread_id t.executions)) [
    | inl a ↦ ground (
      arith,
      h.recorded,
      lookup-insert {V = List StageExecution} thread_id thread_id [] t.executions,
      lookup-insert thread_id thread_id (e ∷ []) t.stage_stack,
    )
    | inr (xs, a) ↦ elim (Option-cases (lookup thread_id t.stage_stack)) [
      | inl b ↦ ground (arith, h.recorded, lookup-insert thread_id thread_id (e ∷ []) t.stage_stack)
      | inr (st, b) ↦
          ground
            (arith, h.recorded, h.stack, lookup-insert thread_id thread_id (e ∷ st) t.stage_stack)
    ]
  ]

  -- The `finally`, when the stage has a parent.
  pop-parent :
      (outcome : Option Exn) (d : ℕ) (i j : Stage) (subs new : Stages)
      (rest es : List StageExecution) (t : ExecutionTracker)
      → lookup thread_id t.stage_stack ≡ some (stage j new ∷ stage i subs ∷ rest)
      → lookup thread_id t.executions ≡ some es
      → (t' : ExecutionTracker) × (pop outcome d thread_id t ≡ ok t')
        × Inside thread_id i (snoc subs (close outcome d (stage j new))) rest es t'
  unfolding pop pop_stack attach add_substage
  pop-parent outcome d i j subs new rest es t st ex =
      let top : List StageExecution = stage i (snoc subs (close outcome d (stage j new))) ∷ rest in
      (
        record t { stage_stack = insert thread_id top t.stage_stack },
        ground arith,
        record {
          stack = ground (arith, lookup-insert thread_id thread_id top t.stage_stack);
          recorded = ex;
        },
      )

  -- The `finally`, when it has none.
  pub pop-top :
      (outcome : Option Exn) (d : ℕ) (j : Stage) (new : Stages) (es : List StageExecution)
      (t : ExecutionTracker)
      → lookup thread_id t.stage_stack ≡ some (stage j new ∷ [])
      → lookup thread_id t.executions ≡ some es
      → (t' : ExecutionTracker) × (pop outcome d thread_id t ≡ ok t')
        × Outside thread_id (es ++ close outcome d (stage j new) ∷ []) t'
  unfolding pop pop_stack attach entries
  pop-top outcome d j new es t st ex =
      let e : StageExecution = close outcome d (stage j new) in
      (
        record t {
          stage_stack = insert thread_id [] t.stage_stack;
          executions = insert thread_id (es ++ e ∷ []) t.executions;
        },
        ground arith,
        record {
          stack =
              ground (
                arith,
                lookup-insert {V = List StageExecution} thread_id thread_id [] t.stage_stack,
              );
          recorded = ground (arith, lookup-insert thread_id thread_id (es ++ e ∷ []) t.executions);
        },
      )

module _ {S : Type 0} (thread_id : String) where
  -- A computation that, inside a stage, only adds sub-stages to it.
  pub Nested : {A : Type 0} → M (Traced S) A → Type 0
  Nested m =
      (i : Stage) (subs : Stages) (rest es : List StageExecution) (s : Traced S)
      → Inside thread_id i subs rest es s.tracker
      → (new : Stages) × Inside thread_id i (join subs new) rest es (m s).1.tracker

  then_with-Nested :
      {A B : Type 0} (i : Stage) (subs new : Stages) (rest es : List StageExecution)
      (p : Result A × Traced S) (k : A → M (Traced S) B)
      → Inside thread_id i (join subs new) rest es p.1.tracker
      → ((a : A) → Nested (k a))
      → (all : Stages) × Inside thread_id i (join subs all) rest es (then_with p k).1.tracker
  unfolding Nested
  then_with-Nested i subs new rest es (raise e, s) k h nk = (new, h)
  then_with-Nested i subs new rest es (ok a, s) k h nk =
      let (more, h') = nk a i (join subs new) rest es s h in
      (join new more, rw (sym (join_assoc subs new more)) h')

  pub Nested-then :
      {A B : Type 0} (m : M (Traced S) A) (k : A → M (Traced S) B)
      → Nested m
      → ((a : A) → Nested (k a))
      → Nested (m >>= k)
  unfolding Nested
  Nested-then m k nm nk i subs rest es s h =
      let (new, h') = nm i subs rest es s h in then_with-Nested i subs new rest es (m s) k h' nk

  -- What leaves the tracker alone.
  pub Nested-silent :
      {A : Type 0} (m : M (Traced S) A) → ((s : Traced S) → (m s).1.tracker ≡ s.tracker) → Nested m
  unfolding Nested join
  Nested-silent m silent i subs rest es s h = (nil, rw (silent s) h)

module _ {S : Type 0} (md5 : String → ℕ) (elapsed : Traced S → Traced S → ℕ)
    (thread_id : String) where
  module _ {A : Type 0} (stage_id stage_name : String) (body : M (Traced S) A) where
    -- The state in which the body starts.
    unfoldable pub begun : Traced S → Traced S
    begun s = record s {
      tracker = push (new_stage stage_id stage_name thread_id) thread_id s.tracker;
    }

    -- The stage that is recorded, with its sub-stages.
    unfoldable pub recorded : Traced S → Stages → StageExecution
    recorded s subs =
        close (outcome_of (body (begun s)).0) (elapsed (begun s) (body (begun s)).1)
          (stage (new_info stage_id stage_name thread_id) subs)

    pub tracked-run :
        (s : Traced S) (t : ExecutionTracker)
        → pop
            (outcome_of (body (begun s)).0)
            (elapsed (begun s) (body (begun s)).1)
            thread_id
            (body (begun s)).1.tracker
          ≡ ok t
        → tracked md5 elapsed stage_id stage_name thread_id body s
          ≡ ((body (begun s)).0, record (body (begun s)).1 { tracker = t })
    unfolding tracked begun
    tracked-run s t e = rw e refl

    body-Inside :
        (s : Traced S) (rest es : List StageExecution)
        → Nested thread_id body
        → lookup thread_id (begun s).tracker.stage_stack
          ≡ some (new_stage stage_id stage_name thread_id ∷ rest)
        → lookup thread_id (begun s).tracker.executions ≡ some es
        → (new : Stages) × Inside thread_id
            (new_info stage_id stage_name thread_id)
            (join nil new)
            rest
            es
            (body (begun s)).1.tracker
    unfolding Nested new_stage
    body-Inside s rest es nb st ex =
        nb (new_info stage_id stage_name thread_id) nil rest es (begun s)
          (record { stack = st; recorded = ex })

    pub tracked-Nested :
        Nested thread_id body
        → Nested thread_id (tracked md5 elapsed stage_id stage_name thread_id body)
    unfolding Nested begun join
    tracked-Nested nb i subs rest es s h =
        let (st, ex) =
          push-Inside thread_id (new_stage stage_id stage_name thread_id) i subs rest es s.tracker
            h in
        let (new, inner) = body-Inside s (stage i subs ∷ rest) es nb st ex in
        let (t', done, h') =
          pop-parent thread_id (outcome_of (body (begun s)).0)
            (elapsed (begun s) (body (begun s)).1) i (new_info stage_id stage_name thread_id) subs
            (join nil new) rest es (body (begun s)).1.tracker inner.stack inner.recorded in
        (snoc nil (recorded s (join nil new)), rw (tracked-run s t' done) (unfold recorded in h'))

    -- If the body, in every state inside a stage of its thread, does nothing to the tracker's view of that
    -- thread but to add sub-stages to the stage, a tracked stage outside any other returns what its
    -- body returns, and records exactly one stage for its thread, with the outcome of the body; no
    -- stage stays open.
    pub tracked-Outside :
        (es : List StageExecution) (s : Traced S)
        → Nested thread_id body
        → Outside thread_id es s.tracker
        → ((tracked md5 elapsed stage_id stage_name thread_id body s).0 ≡ (body (begun s)).0)
          × ((subs : Stages) × Outside thread_id
                (es ++ recorded s subs ∷ [])
                (tracked md5 elapsed stage_id stage_name thread_id body s).1.tracker)
    unfolding begun
    tracked-Outside es s nb h =
        let (st, ex) =
          push-Outside thread_id (new_stage stage_id stage_name thread_id) es s.tracker h in
        let (new, inner) = body-Inside s [] es nb st ex in
        let (t', done, h') =
          pop-top thread_id (outcome_of (body (begun s)).0) (elapsed (begun s) (body (begun s)).1)
            (new_info stage_id stage_name thread_id) (join nil new) es (body (begun s)).1.tracker
            inner.stack inner.recorded in
        (
          rw (tracked-run s t' done) refl,
          (join nil new, rw (tracked-run s t' done) (unfold recorded in h')),
        )
