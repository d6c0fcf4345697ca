-- ===== src/Tests/Batching.antt =====
-- Two calls whose flush fails, and the theorem at them.
use sse_llm_streaming_servic.Base.{
  refl, map, [], ◌∷◌, ℕ, ◌+◌, ◌<◌, ◌≡◌, List, true, false, M, ok, raise, redis_error, length, ◌⊎◌,
  Bool-cases, inl, inr, String, leb, if◌then◌else◌,
}
use sse_llm_streaming_servic.Pipeline.{
  command_of, PipelineManager, start, submit, initial, execute_command, scheduled_flush,
  flush_interrupted, batch_size,
}
use sse_llm_streaming_servic.Pipeline.Delivery.{Delivered, Reachable-Delivered}
use sse_llm_streaming_servic.Pipeline.Settling.{AnswersAll, Reachable-settled}
use sse_llm_streaming_servic.Pipeline.Futures.{is_pending, waits}

-- A server that echoes until it has been asked twice.
abbrev echo : List String → M ℕ (List String)
echo cs n = if leb 2 n then (raise redis_error, n) else (ok cs, n + 1)

echo_answers : AnswersAll echo
unfolding AnswersAll
echo_answers cs w rs e = elim (Bool-cases (leb 2 w)) [
  | inl late ↦ absurd (cc (rw late at e))
  | inr early ↦ cc (rw early at e)
]

abbrev one : PipelineManager String String ℕ
one = execute_command echo "get a" (initial 0)

abbrev two : PipelineManager String String ℕ
two = execute_command echo "get b" one

Reachable-settled_example :
    (length two.queue < batch_size)
    × ((id : ℕ)
        → id < two.next
        → (is_pending (two.futures id) ≡ false)
          ⊎ ((waits id two.queue ≡ true) × (two.flush_task ≡ true)))
    × ((id : ℕ) → id < two.next → is_pending ((scheduled_flush echo two).futures id) ≡ false)
    × ((id : ℕ)
        → (is_pending ((flush_interrupted echo two).futures id) ≡ is_pending (two.futures id))
          × (waits id (flush_interrupted echo two).queue ≡ false))
Reachable-settled_example =
    Reachable-settled echo 0 two echo_answers (submit (submit start "get a") "get b")

answered : echo (map command_of two.queue) two.server ≡ (ok ("get a" ∷ "get b" ∷ []), 1)
unfolding execute_command
answered = refl

Reachable-Delivered_example :
    Delivered two.queue ("get a" ∷ "get b" ∷ []) two.futures (scheduled_flush echo two).futures
Reachable-Delivered_example =
    Reachable-Delivered echo 0 two ("get a" ∷ "get b" ∷ []) 1
      (submit (submit start "get a") "get b") answered
