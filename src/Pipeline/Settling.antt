-- ===== src/Pipeline/Settling.antt =====
-- No caller is left waiting: a future that is given out is settled, or queued with a flush to come.
use sse_llm_streaming_servic.Base.{
  ℕ, suc, ◌<◌, ◌≡◌, refl, ap, ◌∙◌, List, [], ◌∷◌, true, false, M, Result, ok, raise, map, length,
  leb, ◌==◌, arith, ◌⊎◌, inl, inr, Bool-cases,
}
use sse_llm_streaming_servic.Pipeline.{
  cancelled, PipelineManager, batch_size, command_of, flushed, queued, cancel, flush_queue, flush,
  flush_interrupted, execute_command, scheduled_flush, Reachable, start, submit, fire, give_up,
}
use sse_llm_streaming_servic.Pipeline.Futures.{
  is_pending, waits, waits-snoc, waits-none, waits-last, settle-keeps, set_results-keeps,
  set_results-settled, set_exceptions-keeps, set_exceptions-settled,
}

module _ {C R W : Type 0} (execute : List C → M W (List R)) where
  -- What a pipeline promises: as many results as commands.
  unfoldable pub AnswersAll : Type 0
  AnswersAll =
      (cs : List C) (w : W) (rs : List R) → (execute cs w).0 ≡ ok rs → length rs ≡ length cs

  -- Every future that was given out is settled or queued, a queue that is not empty will be flushed, and it
  -- holds less than a batch.
  pub record Sound (p : PipelineManager C R W) : Type 0 where
    pub given :
        (id : ℕ) → id < p.next → (is_pending (p.futures id) ≡ false) ⊎ (waits id p.queue ≡ true)
    pub awaited : (p.queue ≡ []) ⊎ (p.flush_task ≡ true)
    pub below : length p.queue < batch_size

  -- The future is settled, or its command is among some.
  abbrev IsGiven : List (C × ℕ) → PipelineManager C R W → Type 0
  IsGiven qs p = (id : ℕ) → id < p.next → (is_pending (p.futures id) ≡ false) ⊎ (waits id qs ≡ true)

  abbrev IsSettled : ℕ → PipelineManager C R W → Type 0
  IsSettled n p = (id : ℕ) → id < n → is_pending (p.futures id) ≡ false

  length-map : (qs : List (C × ℕ)) → length (map command_of qs) ≡ length qs
  length-map [] = refl
  length-map (q ∷ qs) = ap suc (length-map qs)

  flushed-IsSettled :
      (qs : List (C × ℕ)) (x : Result (List R)) (p : PipelineManager C R W)
      → ((rs : List R) → x ≡ ok rs → length rs ≡ length qs)
      → IsGiven qs p
      → IsSettled p.next (flushed qs x p)
  flushed-IsSettled qs (ok rs) p answers given id lt = elim (given id lt) [
    | inl h ↦ set_results-keeps qs rs p.futures id h
    | inr h ↦ set_results-settled qs rs p.futures id (answers rs refl) h
  ]
  flushed-IsSettled qs (raise e) p answers given id lt = elim (given id lt) [
    | inl h ↦ set_exceptions-keeps qs e p.futures id h
    | inr h ↦ set_exceptions-settled qs e p.futures id h
  ]

  flush_queue-IsSettled :
      (qs : List (C × ℕ)) (p : PipelineManager C R W)
      → AnswersAll
      → IsGiven qs p
      → IsSettled p.next (flush_queue execute qs p)
  unfolding flush_queue AnswersAll waits
  flush_queue-IsSettled [] p answers given =
      λ id lt. elim (given id lt) [ inl h ↦ h | inr h ↦ cc h ]
  flush_queue-IsSettled (q ∷ qs) p answers given =
      let cs = map command_of (q ∷ qs) in
      flushed-IsSettled (q ∷ qs) (execute cs p.server).0
        (record p { queue = []; server = (execute cs p.server).1 })
        (λ rs e. answers cs p.server rs e ∙ length-map (q ∷ qs)) given

  flushed-queue :
      (qs : List (C × ℕ)) (x : Result (List R)) (p : PipelineManager C R W)
      → (flushed qs x p).queue ≡ p.queue
  flushed-queue qs (ok rs) p = refl
  flushed-queue qs (raise e) p = refl

  flushed-next :
      (qs : List (C × ℕ)) (x : Result (List R)) (p : PipelineManager C R W)
      → (flushed qs x p).next ≡ p.next
  flushed-next qs (ok rs) p = refl
  flushed-next qs (raise e) p = refl

  flush_queue-queue :
      (qs : List (C × ℕ)) (p : PipelineManager C R W)
      → p.queue ≡ qs
      → (flush_queue execute qs p).queue ≡ []
  unfolding flush_queue
  flush_queue-queue [] p e = e
  flush_queue-queue (q ∷ qs) p e = flushed-queue (q ∷ qs) _ _

  flush_queue-next :
      (qs : List (C × ℕ)) (p : PipelineManager C R W) → (flush_queue execute qs p).next ≡ p.next
  unfolding flush_queue
  flush_queue-next [] p = refl
  flush_queue-next (q ∷ qs) p = flushed-next (q ∷ qs) _ _

  -- A flush settles every future that was given out.
  flush-Sound :
      (p : PipelineManager C R W) → AnswersAll → IsGiven p.queue p → Sound (flush execute p)
  unfolding flush
  flush-Sound p answers given = record {
    given = λ id lt.
        inl (
          flush_queue-IsSettled p.queue p answers given id (rw (flush_queue-next p.queue p) at lt));
    awaited = inl (flush_queue-queue p.queue p refl);
    below = rw (flush_queue-queue p.queue p refl) (omega arith);
  }

  scheduled_flush-Sound :
      (p : PipelineManager C R W)
      → AnswersAll
      → IsGiven p.queue p
      → Sound (scheduled_flush execute p)
  unfolding scheduled_flush
  scheduled_flush-Sound p answers given =
      let h = flush-Sound p answers given in
      record {
        given = h.given;
        awaited = inl (unfold flush in flush_queue-queue p.queue p refl);
        below = h.below;
      }

  queued-IsGiven :
      (c : C) (p : PipelineManager C R W)
      → IsGiven p.queue p
      → IsGiven (queued c p).queue (queued c p)
  queued-IsGiven c p given id lt = elim (Bool-cases (p.next == id)) [
    | inl same ↦ inr (waits-last id p.next c p.queue same)
    | inr other ↦ elim (given id (ground arith)) [
      | inl h ↦ inl (rw other h)
      | inr h ↦ inr (waits-snoc id p.next c p.queue h)
    ]
  ]

  execute_command-Sound :
      (c : C) (p : PipelineManager C R W)
      → AnswersAll
      → Sound p
      → Sound (execute_command execute c p)
  unfolding execute_command
  execute_command-Sound c p answers h =
      let p1 : PipelineManager C R W = queued c p in
      let given : IsGiven p1.queue p1 = queued-IsGiven c p h.given in
      elim (Bool-cases (leb batch_size (length p1.queue))) [
        | inl full ↦ rw (full, execute_command) (flush-Sound p1 answers given)
        | inr room ↦
            rw (room, execute_command)
              (record { given = given; awaited = inr refl; below = ground arith })
      ]

  cancel-Sound : (id : ℕ) (p : PipelineManager C R W) → Sound p → Sound (cancel id p)
  unfolding cancel
  cancel-Sound id p h = record {
    given = λ j lt. elim (h.given j lt) [
      | inl e ↦ inl (settle-keeps id j cancelled p.futures e)
      | inr e ↦ inr e
    ];
    awaited = h.awaited;
    below = h.below;
  }

  Reachable-Sound :
      (w : W) (p : PipelineManager C R W) → AnswersAll → Reachable execute w p → Sound p
  Reachable-Sound w p answers start = record {
    given = λ id lt. absurd (omega arith);
    awaited = inl refl;
    below = omega arith;
  }
  Reachable-Sound w p answers (submit {p = q} r c) =
      execute_command-Sound c q answers (Reachable-Sound w q answers r)
  Reachable-Sound w p answers (fire {p = q} r e) =
      scheduled_flush-Sound q answers (Reachable-Sound w q answers r).given
  Reachable-Sound w p answers (give_up {p = q} r id lt) =
      cancel-Sound id q (Reachable-Sound w q answers r)

  -- In every state that calls, cancellations of callers that wait, and the scheduled task lead to, less than a batch
  -- is queued; each future that was given out is settled, or its command is queued and the flush task
  -- is set; and when that task flushes, every future that was given out is settled. But if a task is
  -- cancelled while it flushes such a state, each future that was not settled stays so, and its
  -- command is no longer queued. A pipeline that answers gives as many results as it has commands;
  -- it may also fail.
  pub Reachable-settled :
      (w : W) (p : PipelineManager C R W)
      → AnswersAll
      → Reachable execute w p
      → (length p.queue < batch_size)
        × ((id : ℕ)
            → id < p.next
            → (is_pending (p.futures id) ≡ false)
              ⊎ ((waits id p.queue ≡ true) × (p.flush_task ≡ true)))
        × ((id : ℕ) → id < p.next → is_pending ((scheduled_flush execute p).futures id) ≡ false)
        × ((id : ℕ)
            → (is_pending ((flush_interrupted execute p).futures id) ≡ is_pending (p.futures id))
              × (waits id (flush_interrupted execute p).queue ≡ false))
  unfolding scheduled_flush flush flush_interrupted waits
  Reachable-settled w p answers r =
      let h = Reachable-Sound w p answers r in
      (
        h.below,
        (λ id lt. elim (h.given id lt) [
          | inl e ↦ inl e
          | inr e ↦ inr (
            e,
            elim h.awaited [
              | inl none_left ↦ absurd (cc (e, waits-none id p.queue none_left))
              | inr set ↦ set
            ],
          )
        ]),
        flush_queue-IsSettled p.queue p answers h.given,
        (λ id. (refl, refl)),
      )
