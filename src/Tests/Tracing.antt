-- ===== src/Tests/Tracing.antt =====
-- A tracked request whose second stage holds a third and fails, and the theorems at it.
use sse_llm_streaming_servic.Base.{
  ℕ, ◌+◌, ◌≡◌, refl, String, [], ◌∷◌, true, M, ok, raise, queue_error, throw, ◌>>◌,
}
use sse_llm_streaming_servic.Base.Dict.{lookup}
use sse_llm_streaming_servic.Tracker.{Stages, Traced, tracked, entries}
use sse_llm_streaming_servic.Tracker.Nesting.{
  Outside, Nested, Nested-then, Nested-silent, begun, recorded, tracked-Nested, tracked-Outside,
}

-- The state counts steps, which take the time.
abbrev hash : String → ℕ
hash t = 7

abbrev spent : Traced ℕ → Traced ℕ → ℕ
spent a b = b.state

abbrev tick : M (Traced ℕ) (Unit {0})
tick s = (ok tt, record s { state = s.state + 1 })

abbrev inner : M (Traced ℕ) (Unit {0})
inner = tracked hash spent "2.1" "L1 cache lookup" "t" tick

abbrev outer : M (Traced ℕ) (Unit {0})
outer = inner >> (λ s. (raise queue_error, s))

inner-Nested : Nested "t" inner
inner-Nested =
    tracked-Nested hash spent "t" "2.1" "L1 cache lookup" tick (Nested-silent "t" tick (λ s. refl))

outer-Nested : Nested "t" outer
outer-Nested =
    Nested-then "t" inner (λ u. throw queue_error) inner-Nested
      (λ u. Nested-silent "t" (throw queue_error) (λ s. refl))

abbrev fresh : Traced ℕ
fresh = record {
  tracker = record {
    executions = [];
    stage_stack = [];
    tracking_enabled = true;
    sample_rate = 1000000;
  };
  state = 0;
}

fresh-Outside : Outside "t" [] fresh.tracker
unfolding entries lookup
fresh-Outside = record { stack = refl; recorded = refl }

tracked-Outside_example :
    ((tracked hash spent "2" "Cache lookup" "t" outer fresh).0
      ≡ (outer (begun hash spent "t" "2" "Cache lookup" outer fresh)).0)
    × ((subs : Stages) × Outside "t"
          (recorded hash spent "t" "2" "Cache lookup" outer fresh subs ∷ [])
          (tracked hash spent "2" "Cache lookup" "t" outer fresh).1.tracker)
tracked-Outside_example =
    tracked-Outside hash spent "t" "2" "Cache lookup" outer [] fresh outer-Nested fresh-Outside
