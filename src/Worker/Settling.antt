-- ===== src/Worker/Settling.antt =====
-- Acknowledgements in a list of actions, and how they compose over the calls of the worker.
use sse_llm_streaming_servic.Base.{
  ◌≡◌, ◌∙◌, ap, ◌⊎◌, inl, inr, throw, String, List, [], ◌∷◌, M, Exn, Result, ok, raise, ◌>>◌, try,
  then_with, handle_with,
}
use sse_llm_streaming_servic.Worker.{State, Action, acknowledge, publish, produce, sleep}

-- The messages that were acknowledged, the last one first.
unfoldable pub acked : List Action → List String
acked [] = []
acked (acknowledge id ∷ actions) = id ∷ acked actions
acked (publish k t ∷ actions) = acked actions
acked (produce q ∷ actions) = acked actions
acked (sleep t ∷ actions) = acked actions

-- From the actions before to the actions after a call with a given result: on a return the last
-- action acknowledges the message and no other does, and on a raise none does.
unfoldable pub SettlesOnce : String → List Action → Result (Unit {0}) → List Action → Type 0
SettlesOnce id before (ok u) now =
    (rest : List Action) × (now ≡ acknowledge id ∷ rest) × (acked rest ≡ acked before)
SettlesOnce id before (raise e) now = acked now ≡ acked before

-- The same with at most one more acknowledgement of the message, before that last action or before
-- the exception.
abbrev pub UpToOnce : String → List Action → List Action → Type 0
UpToOnce id before now = (acked now ≡ acked before) ⊎ (acked now ≡ id ∷ acked before)

unfoldable pub Settles : String → List Action → Result (Unit {0}) → List Action → Type 0
Settles id before (ok u) now =
    (rest : List Action) × (now ≡ acknowledge id ∷ rest) × UpToOnce id before rest
Settles id before (raise e) now = UpToOnce id before now

pub once-Settles :
    (id : String) (b c : List Action) (x : Result (Unit {0}))
    → SettlesOnce id b x c
    → Settles id b x c
unfolding Settles SettlesOnce
once-Settles id b c (ok u) (rest, now, same) = (rest, now, inl same)
once-Settles id b c (raise e) same = inl same

twice-Settles :
    (id : String) (a b c : List Action) (x : Result (Unit {0}))
    → acked a ≡ id ∷ acked b
    → SettlesOnce id a x c
    → Settles id b x c
unfolding Settles SettlesOnce
twice-Settles id a b c (ok u) e (rest, now, same) = (rest, now, inr (same ∙ e))
twice-Settles id a b c (raise x) e same = inr (same ∙ e)

pub SettlesOnce-from :
    (id : String) (a b c : List Action) (x : Result (Unit {0}))
    → acked a ≡ acked b
    → SettlesOnce id a x c
    → SettlesOnce id b x c
unfolding SettlesOnce
SettlesOnce-from id a b c (ok u) e (rest, now, same) = (rest, now, same ∙ e)
SettlesOnce-from id a b c (raise x) e same = same ∙ e

module _ {W : Type 0} where
  abbrev pub Quiet : M (State W) (Unit {0}) → Type 0
  Quiet m = (s : State W) → acked (m s).1.actions ≡ acked s.actions

  abbrev pub SettlingOnce : String → M (State W) (Unit {0}) → Type 0
  SettlingOnce id m = (s : State W) → SettlesOnce id s.actions (m s).0 (m s).1.actions

  abbrev pub Settling : String → M (State W) (Unit {0}) → Type 0
  Settling id m = (s : State W) → Settles id s.actions (m s).0 (m s).1.actions

  pub Once-Settling : (id : String) (m : M (State W) (Unit {0})) → SettlingOnce id m → Settling id m
  Once-Settling id m sm s = once-Settles id s.actions _ _ (sm s)

  -- The same for a call whose result and state are given.
  pub then_with-acked :
      (b : List Action) (p : Result (Unit {0}) × State W) (k : M (State W) (Unit {0}))
      → acked p.1.actions ≡ acked b
      → Quiet k
      → acked (then_with p (λ _. k)).1.actions ≡ acked b
  then_with-acked b (ok u, s) k q qk = qk s ∙ q
  then_with-acked b (raise e, s) k q qk = q

  pub Quiet-then : (m k : M (State W) (Unit {0})) → Quiet m → Quiet k → Quiet (m >> k)
  Quiet-then m k qm qk s = then_with-acked s.actions (m s) k (qm s) qk

  pub then_with-SettlesOnceOnce :
      (id : String) (b : List Action) (p : Result (Unit {0}) × State W) (k : M (State W) (Unit {0}))
      → acked p.1.actions ≡ acked b
      → SettlingOnce id k
      → SettlesOnce id b (then_with p (λ _. k)).0 (then_with p (λ _. k)).1.actions
  unfolding SettlesOnce
  then_with-SettlesOnceOnce id b (ok u, s) k q sk = SettlesOnce-from id s.actions b _ _ q (sk s)
  then_with-SettlesOnceOnce id b (raise e, s) k q sk = q

  pub SettlingOnce-then :
      (id : String) (m k : M (State W) (Unit {0}))
      → Quiet m
      → SettlingOnce id k
      → SettlingOnce id (m >> k)
  SettlingOnce-then id m k qm sk s = then_with-SettlesOnceOnce id s.actions (m s) k (qm s) sk

  handle_with-Settles :
      (id : String) (x : Exn) (b : List Action) (p : Result (Unit {0}) × State W)
      (h : Exn → M (State W) (Unit {0}))
      → SettlesOnce id b p.0 p.1.actions
      → ((e : Exn) → SettlingOnce id (h e))
      → let out = handle_with (then_with p (λ _ t. (raise x, t))) h in
        Settles id b out.0 out.1.actions
  unfolding SettlesOnce acked
  handle_with-Settles id x b (ok u, s) h (rest, now, same) sh =
      twice-Settles id s.actions b _ _ (ap acked now ∙ ap (λ ids. id ∷ ids) same) (sh x s)
  handle_with-Settles id x b (raise e, s) h q sh =
      once-Settles id b _ _ (SettlesOnce-from id s.actions b _ _ q (sh e s))

  -- A call that settles, then an exception, and its handler, which settles too.
  pub Settling-try :
      (id : String) (x : Exn) (m : M (State W) (Unit {0})) (h : Exn → M (State W) (Unit {0}))
      → SettlingOnce id m
      → ((e : Exn) → SettlingOnce id (h e))
      → Settling id (try (m >> throw x) h)
  Settling-try id x m h sm sh s = handle_with-Settles id x s.actions (m s) h (sm s) sh
