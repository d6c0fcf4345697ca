-- ===== src/Worker/Loop.antt =====
-- `ConsumerLoop` around its batches. What the queue returns in each round is given, a batch or an
-- exception; the loop ends with the rounds, or when a stop is requested.
use sse_llm_streaming_servic.Base.{
  ℕ, ◌+◌, ◌*◌, ◌≤◌, ◌≡◌, refl, String, List, [], ◌∷◌, none, M, Result, ok, raise, ◌>>◌, suc, ap,
  throw, try, then_with, handle_with, arith, length, if◌then◌else◌, Bool-cases, inl, inr,
}
use sse_llm_streaming_servic.Redis.{RedisClient}
use sse_llm_streaming_servic.Worker.{
  State, Action, sleep, Environment, WorkerConfig, QueueMessage, perform, process, consume_batch,
}
use sse_llm_streaming_servic.Worker.Settling.{acked, Settles, UpToOnce}
use sse_llm_streaming_servic.Worker.Acks.{process-Settles}

-- What `consume` gives in a round.
abbrev pub Poll : Type 0
Poll = Result (List QueueMessage)

abbrev brought : Poll → ℕ
brought (ok messages) = length messages
brought (raise e) = 0

-- How many messages the rounds brought.
unfoldable pub fetched : List Poll → ℕ
fetched [] = 0
fetched (poll ∷ polls) = brought poll + fetched polls

module _ {W : Type 0} (r : RedisClient W) (env : Environment) (c : WorkerConfig) (error_backoff : ℕ)
    (now : List Action → ℕ) where
  -- `_consume_batch` with what `consume` gave it.
  unfoldable pub batch : Poll → M (State W) (Unit {0})
  batch (raise e) = throw e
  batch (ok []) = perform r env c (sleep 100)
  batch (ok (m ∷ ms)) = consume_batch r env c now (m ∷ ms)

  -- The `while` of `start`.
  unfoldable pub start : List Poll → M (State W) (Unit {0})
  start [] s = (ok tt, s)
  start (poll ∷ polls) s =
      if env.stopped s.actions
      then (ok tt, s)
      else (try (batch poll) (λ e. perform r env c (sleep error_backoff)) >> start polls) s

  -- The number of acknowledgements.
  abbrev acks : List Action → ℕ
  acks actions = length (acked actions)

  -- At most `2 * n` acknowledgements more.
  abbrev Within : ℕ → State W → Result (Unit {0}) × State W → Type 0
  Within n s out =
      (acks s.actions ≤ acks out.1.actions) × (acks out.1.actions ≤ acks s.actions + 2 * n)

  up_to_once :
      (id : String) (before now : List Action)
      → UpToOnce id before now
      → (acks before ≤ acks now) × (acks now ≤ acks before + 1)
  up_to_once id before now (inl e) = let n = ap length e in (omega (arith, n), omega (arith, n))
  up_to_once id before now (inr e) = let n = ap length e in (omega (arith, n), omega (arith, n))

  settled :
      (id : String) (n : ℕ) (s : State W) (p : Result (Unit {0}) × State W)
      (k : M (State W) (Unit {0}))
      → Settles id s.actions p.0 p.1.actions
      → ((t : State W) → Within n t (k t))
      → Within (suc n) s (then_with p (λ _. k))
  unfolding Settles acked
  settled id n s (ok u, t) k (rest, last, same) more =
      let one : acks t.actions ≡ suc (acks rest) = ap acks last in
      let few = up_to_once id s.actions rest same in
      (omega (arith, (more t).0, one, few), omega (arith, (more t).1, one, few))
  settled id n s (raise e, t) k same more =
      let few = up_to_once id s.actions t.actions same in (omega (arith, few), omega (arith, few))

  consume_batch-Within :
      (messages : List QueueMessage) (s : State W)
      → Within (length messages) s (consume_batch r env c now messages s)
  unfolding consume_batch
  consume_batch-Within [] s = (omega arith, omega arith)
  consume_batch-Within (message ∷ messages) s = elim (Bool-cases (env.stopped s.actions)) [
    | inl b ↦ rw b (omega arith, omega arith)
    | inr b ↦ rw b (
        settled message.id (length messages) s (process r env c (now s.actions) message s) _
          (process-Settles r env c (now s.actions) message s) (consume_batch-Within messages))
  ]

  module _ (sleeps : (actions : List Action) (n : ℕ) → env.outcome actions (sleep n) ≡ none) where
    sleep_lem :
        (n : ℕ) (s : State W)
        → (perform r env c (sleep n) s).0 ≡ ok tt
          × (acks (perform r env c (sleep n) s).1.actions ≡ acks s.actions)
    unfolding perform acked
    sleep_lem n s = rw (sleeps s.actions n) (refl, refl)

    batch-Within : (poll : Poll) (s : State W) → Within (brought poll) s (batch poll s)
    unfolding batch
    batch-Within (raise e) s = (omega arith, omega arith)
    batch-Within (ok []) s =
        let slept = sleep_lem 100 s in (omega (arith, slept.1), omega (arith, slept.1))
    batch-Within (ok (m ∷ ms)) s = consume_batch-Within (m ∷ ms) s

    recovered :
        (n : ℕ) (s : State W) (p : Result (Unit {0}) × State W)
        → Within n s p
        → let out = handle_with p (λ e. perform r env c (sleep error_backoff)) in
          (out.0 ≡ ok tt) × Within n s out
    recovered n s (ok u, t) h = (refl, h)
    recovered n s (raise e, t) h =
        let slept = sleep_lem error_backoff t in
        (slept.0, (omega (arith, slept.1, h.0), omega (arith, slept.1, h.1)))

    continued :
        (n m : ℕ) (s : State W) (p : Result (Unit {0}) × State W) (k : M (State W) (Unit {0}))
        → (p.0 ≡ ok tt) × Within n s p
        → ((t : State W) → ((k t).0 ≡ ok tt) × Within m t (k t))
        → let out = then_with p (λ _. k) in (out.0 ≡ ok tt) × Within (n + m) s out
    continued n m s (ok u, t) k h more =
        let next = more t in (next.0, (omega (arith, h.1, next.1), omega (arith, h.1, next.1)))
    continued n m s (raise e, t) k h more = cc h.0

    -- As long as no sleep is interrupted, and whatever else fails in the queue, Redis and the orchestrator: the loop
    -- raises nothing, whether it ends with the rounds or at a requested stop, and it makes at most twice as many
    -- acknowledgements as the rounds brought messages.
    pub start-acks :
        (polls : List Poll) (s : State W)
        → ((start polls s).0 ≡ ok tt)
          × (acks s.actions ≤ acks (start polls s).1.actions)
          × (acks (start polls s).1.actions ≤ acks s.actions + 2 * fetched polls)
    unfolding start fetched
    start-acks [] s = (refl, omega arith, omega arith)
    start-acks (poll ∷ polls) s = elim (Bool-cases (env.stopped s.actions)) [
      | inl b ↦ rw b (refl, omega arith, omega arith)
      | inr b ↦
          let out =
            continued (brought poll) (fetched polls) s
              (try (batch poll) (λ e. perform r env c (sleep error_backoff)) s) (start polls)
              (recovered (brought poll) s (batch poll s) (batch-Within poll s))
              (λ t. let rest = start-acks polls t in (rest.0, (rest.1, rest.2))) in
          rw b (out.0, out.1.0, out.1.1)
    ]
