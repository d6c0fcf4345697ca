-- ===== src/Pipeline.antt =====
-- `PipelineManager` of src/infrastructure/cache/redis_client.py. A method that holds the lock is one
-- step; a future is known by its number. A task that is cancelled while it flushes is `flush_interrupted`.
pub mod Delivery
pub mod Futures
pub mod Settling
use sse_llm_streaming_servic.Base.{
  ℕ, ◌+◌, ◌<◌, ◌≡◌, List, [], ◌∷◌, ◌++◌, Bool, true, false, M, Exn, Result, ok, raise, map, length,
  leb, ◌==◌, if◌then◌else◌,
}

pub data Future (R : Type 0) : Type 0 where
  pending : Future R
  done : R → Future R
  failed : Exn → Future R
  cancelled : Future R

-- The queued commands with their futures, whether `_flush_task` is set, the futures that were given out, and
-- the number of the next one.
pub record PipelineManager (C R W : Type 0) : Type 0 where
  pub queue : List (C × ℕ)
  pub flush_task : Bool
  pub futures : ℕ → Future R
  pub next : ℕ
  pub server : W

abbrev pub batch_size : ℕ
batch_size = 10

-- `if not future.done()`
abbrev pub unless_done : {R : Type 0} → Future R → Future R → Future R
unless_done x pending = x
unless_done x (done r) = done r
unless_done x (failed e) = failed e
unless_done x cancelled = cancelled

module _ {R : Type 0} where
  unfoldable pub settle : ℕ → Future R → (ℕ → Future R) → ℕ → Future R
  settle id x futures j = if id == j then unless_done x (futures j) else futures j

module _ {C R : Type 0} where
  -- `zip` stops at the shorter list.
  unfoldable pub set_results : List (C × ℕ) → List R → (ℕ → Future R) → ℕ → Future R
  set_results [] rs futures = futures
  set_results (q ∷ qs) [] futures = futures
  set_results (q ∷ qs) (r ∷ rs) futures = set_results qs rs (settle q.1 (done r) futures)

  unfoldable pub set_exceptions : List (C × ℕ) → Exn → (ℕ → Future R) → ℕ → Future R
  set_exceptions [] e futures = futures
  set_exceptions (q ∷ qs) e futures = set_exceptions qs e (settle q.1 (failed e) futures)

abbrev pub command_of : {C : Type 0} → C × ℕ → C
command_of q = q.0

module _ {C R W : Type 0} where
  abbrev pub flushed :
      List (C × ℕ) → Result (List R) → PipelineManager C R W → PipelineManager C R W
  flushed qs (ok rs) p = record p { futures = set_results qs rs p.futures }
  flushed qs (raise e) p = record p { futures = set_exceptions qs e p.futures }

  -- A call that is queued, with a future of its own.
  abbrev pub queued : C → PipelineManager C R W → PipelineManager C R W
  queued c p = record p {
    queue = p.queue ++ (c, p.next) ∷ [];
    futures = λ j. if p.next == j then pending else p.futures j;
    next = p.next + 1;
  }

  abbrev pub initial : W → PipelineManager C R W
  initial w = record {
    queue = [];
    flush_task = false;
    futures = λ j. pending;
    next = 0;
    server = w;
  }

  -- A caller that is cancelled while it waits for its future.
  unfoldable pub cancel : ℕ → PipelineManager C R W → PipelineManager C R W
  cancel id p = record p { futures = settle id cancelled p.futures }

  module _ (execute : List C → M W (List R)) where
    unfoldable pub flush_queue : List (C × ℕ) → PipelineManager C R W → PipelineManager C R W
    flush_queue [] p = p
    flush_queue (q ∷ qs) p =
        let (results, w) = execute (map command_of (q ∷ qs)) p.server in
        flushed (q ∷ qs) results (record p { queue = []; server = w })

    unfoldable pub flush : PipelineManager C R W → PipelineManager C R W
    flush p = flush_queue p.queue p

    -- The task is cancelled while the pipeline executes: `except Exception` does not catch that.
    unfoldable pub flush_interrupted : PipelineManager C R W → PipelineManager C R W
    flush_interrupted p = record p {
      queue = [];
      server = (execute (map command_of p.queue) p.server).1;
    }

    unfoldable pub execute_command : C → PipelineManager C R W → PipelineManager C R W
    execute_command c p =
        let p1 = queued c p in
        if leb batch_size (length p1.queue) then flush p1 else record p1 { flush_task = true }

    unfoldable pub scheduled_flush : PipelineManager C R W → PipelineManager C R W
    scheduled_flush p = record (flush p) { flush_task = false }

    -- The states that calls, cancellations of callers that wait, and the scheduled task lead to; no task
    -- is cancelled while it flushes.
    pub data Reachable (w : W) : PipelineManager C R W → Type 0 where
      start : Reachable w (initial w)
      submit :
          {p : PipelineManager C R W} → Reachable w p → (c : C) → Reachable w (execute_command c p)
      fire :
          {p : PipelineManager C R W}
          → Reachable w p
          → p.flush_task ≡ true
          → Reachable w (scheduled_flush p)
      give_up :
          {p : PipelineManager C R W}
          → Reachable w p
          → (id : ℕ) → id < p.next
          → Reachable w (cancel id p)
