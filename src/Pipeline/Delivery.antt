-- ===== src/Pipeline/Delivery.antt =====
-- A flush gives each caller the result of its own command.
use sse_llm_streaming_servic.Base.{
  ℕ, ◌+◌, ◌<◌, ◌≡◌, refl, ap, ◌∙◌, List, [], ◌∷◌, ◌++◌, false, M, Result, ok, raise, map, length,
  leb, ◌==◌, arith, inl, inr, Bool-cases,
}
use sse_llm_streaming_servic.Pipeline.{
  Future, done, PipelineManager, batch_size, unless_done, settle, set_results, command_of, flushed,
  queued, cancel, flush_queue, flush, execute_command, scheduled_flush, Reachable, start, submit,
  fire, give_up,
}
use sse_llm_streaming_servic.Pipeline.Futures.{waits}

-- The futures of a queue differ, and stand below a number.
unfoldable pub Numbered : {C : Type 0} → ℕ → List (C × ℕ) → Type 0
Numbered n [] = Unit {0}
Numbered n (q ∷ qs) = (q.1 < n) × (waits q.1 qs ≡ false) × Numbered n qs

-- From the futures before to those after: each caller that still waited has the result at the place of its command.
unfoldable pub Delivered :
    {C R : Type 0} → List (C × ℕ) → List R → (ℕ → Future R) → (ℕ → Future R) → Type 0
Delivered [] rs f g = Unit {0}
Delivered (q ∷ qs) [] f g = Unit {0}
Delivered (q ∷ qs) (r ∷ rs) f g = (g q.1 ≡ unless_done (done r) (f q.1)) × Delivered qs rs f g

Numbered-suc : {C : Type 0} (n : ℕ) (qs : List (C × ℕ)) → Numbered n qs → Numbered (n + 1) qs
unfolding Numbered
Numbered-suc n [] h = tt
Numbered-suc n (q ∷ qs) (lt, fresh, rest) = (omega arith, fresh, Numbered-suc n qs rest)

waits-other :
    {C : Type 0} (j n : ℕ) (c : C) (qs : List (C × ℕ))
    → j < n
    → waits j qs ≡ false
    → waits j (qs ++ (c, n) ∷ []) ≡ false
unfolding waits
waits-other j n c [] lt h = ground arith
waits-other j n c (q ∷ qs) lt h = ground (arith, waits-other j n c qs lt)

Numbered-snoc :
    {C : Type 0} (n : ℕ) (c : C) (qs : List (C × ℕ))
    → Numbered n qs
    → Numbered (n + 1) (qs ++ (c, n) ∷ [])
unfolding Numbered waits
Numbered-snoc n c [] h = (omega arith, refl, tt)
Numbered-snoc n c (q ∷ qs) (lt, fresh, rest) =
    (omega arith, waits-other q.1 n c qs lt fresh, Numbered-snoc n c qs rest)

module _ {R : Type 0} where
  settle_self : (id : ℕ) (x : Future R) (f : ℕ → Future R) → settle id x f id ≡ unless_done x (f id)
  unfolding settle
  settle_self id x f = ground arith

  settle-other :
      (id j : ℕ) (x : Future R) (f : ℕ → Future R) → (id == j) ≡ false → settle id x f j ≡ f j
  unfolding settle
  settle-other id j x f e = rw (e, settle) refl

module _ {C R : Type 0} where
  set_results-other :
      (qs : List (C × ℕ)) (rs : List R) (f : ℕ → Future R) (j : ℕ)
      → waits j qs ≡ false
      → set_results qs rs f j ≡ f j
  unfolding set_results waits
  set_results-other [] rs f j h = refl
  set_results-other (q ∷ qs) [] f j h = refl
  set_results-other (q ∷ qs) (r ∷ rs) f j h = elim (Bool-cases (q.1 == j)) [
    | inl same ↦ absurd (cc (rw (same, waits) at h))
    | inr other ↦
        set_results-other qs rs (settle q.1 (done r) f) j (rw (other, waits) at h)
        ∙ settle-other q.1 j (done r) f other
  ]

  -- Futures that are not in the queue do not matter.
  Delivered-settle :
      (id : ℕ) (x : Future R) (qs : List (C × ℕ)) (rs : List R) (f g : ℕ → Future R)
      → waits id qs ≡ false
      → Delivered qs rs (settle id x f) g
      → Delivered qs rs f g
  unfolding Delivered waits
  Delivered-settle id x [] rs f g h d = tt
  Delivered-settle id x (q ∷ qs) [] f g h d = tt
  Delivered-settle id x (q ∷ qs) (r ∷ rs) f g h (here, rest) = elim (Bool-cases (q.1 == id)) [
    | inl same ↦ absurd (cc (rw (same, waits) at h))
    | inr other ↦ (
      here ∙ ap (unless_done (done r)) (settle-other id q.1 x f (ground arith)),
      Delivered-settle id x qs rs f g (rw (other, waits) at h) rest,
    )
  ]

  set_results-Delivered :
      (n : ℕ) (qs : List (C × ℕ)) (rs : List R) (f : ℕ → Future R)
      → Numbered n qs
      → Delivered qs rs f (set_results qs rs f)
  unfolding Delivered Numbered set_results
  set_results-Delivered n [] rs f h = tt
  set_results-Delivered n (q ∷ qs) [] f h = tt
  set_results-Delivered n (q ∷ qs) (r ∷ rs) f (lt, fresh, rest) =
      let f1 : ℕ → Future R = settle q.1 (done r) f in
      (
        set_results-other qs rs f1 q.1 fresh ∙ settle_self q.1 (done r) f,
        Delivered-settle q.1 (done r) qs rs f (set_results qs rs f1) fresh
            (set_results-Delivered n qs rs f1 rest),
      )

module _ {C R W : Type 0} (execute : List C → M W (List R)) where
  -- The numbers of the futures in a state's queue.
  abbrev IsNumbered : PipelineManager C R W → Type 0
  IsNumbered p = Numbered p.next p.queue

  flushed-IsNumbered :
      (qs : List (C × ℕ)) (x : Result (List R)) (p : PipelineManager C R W)
      → IsNumbered p
      → IsNumbered (flushed qs x p)
  flushed-IsNumbered qs (ok rs) p h = h
  flushed-IsNumbered qs (raise e) p h = h

  flush_queue-IsNumbered :
      (qs : List (C × ℕ)) (p : PipelineManager C R W)
      → IsNumbered p
      → IsNumbered (flush_queue execute qs p)
  unfolding flush_queue Numbered
  flush_queue-IsNumbered [] p h = h
  flush_queue-IsNumbered (q ∷ qs) p h =
      let (results, w) = execute (map command_of (q ∷ qs)) p.server in
      flushed-IsNumbered (q ∷ qs) results (record p { queue = []; server = w }) tt

  execute_command-IsNumbered :
      (c : C) (p : PipelineManager C R W) → IsNumbered p → IsNumbered (execute_command execute c p)
  unfolding execute_command flush
  execute_command-IsNumbered c p h =
      let p1 : PipelineManager C R W = queued c p in
      let numbered : IsNumbered p1 = Numbered-snoc p.next c p.queue h in
      elim (Bool-cases (leb batch_size (length p1.queue))) [
        | inl full ↦ rw (full, execute_command) (flush_queue-IsNumbered p1.queue p1 numbered)
        | inr room ↦ rw (room, execute_command) numbered
      ]

  Reachable-IsNumbered : (w : W) (p : PipelineManager C R W) → Reachable execute w p → IsNumbered p
  unfolding scheduled_flush flush cancel Numbered
  Reachable-IsNumbered w p start = tt
  Reachable-IsNumbered w p (submit {p = q} r c) =
      execute_command-IsNumbered c q (Reachable-IsNumbered w q r)
  Reachable-IsNumbered w p (fire {p = q} r e) =
      flush_queue-IsNumbered q.queue q (Reachable-IsNumbered w q r)
  Reachable-IsNumbered w p (give_up {p = q} r id lt) = Reachable-IsNumbered w q r

  flush_queue-futures :
      (qs : List (C × ℕ)) (p : PipelineManager C R W) (rs : List R) (w' : W)
      → execute (map command_of qs) p.server ≡ (ok rs, w')
      → (flush_queue execute qs p).futures ≡ set_results qs rs p.futures
  unfolding flush_queue set_results
  flush_queue-futures [] p rs w' e = refl
  flush_queue-futures (q ∷ qs) p rs w' e = rw e refl

  -- When the scheduled task flushes a state that calls, cancellations and flushes lead to, and the server answers
  -- the queued commands, every caller that still waits for one of them gets the result at the place of its
  -- own command; a future that was settled before, as that of a cancelled caller, is left as it was.
  pub Reachable-Delivered :
      (w : W) (p : PipelineManager C R W) (rs : List R) (w' : W)
      → Reachable execute w p
      → execute (map command_of p.queue) p.server ≡ (ok rs, w')
      → Delivered p.queue rs p.futures (scheduled_flush execute p).futures
  unfolding scheduled_flush flush
  Reachable-Delivered w p rs w' r e =
      rw (flush_queue-futures p.queue p rs w' e)
        (set_results-Delivered p.next p.queue rs p.futures (Reachable-IsNumbered w p r))
