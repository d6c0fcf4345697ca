-- ===== src/Cache/Strategy/Coherence.antt =====
-- When the first tier holds only what the second tier would answer.
use sse_llm_streaming_servic.Base.{
  ◌≡◌, String, Option, none, some, arith, ite, string_discrete, inl, inr, Option-cases,
}
use sse_llm_streaming_servic.Base.Dict.{lookup, lookup-remove}
use sse_llm_streaming_servic.Cache.L1.{L1Storage, delete, evict}
use sse_llm_streaming_servic.Cache.L1
use sse_llm_streaming_servic.Cache.L1.Invariant.{
  IsValid, touch, lookup-touch, touch-Distinct, set-touch, set-IsValid, after_get, lookup-evict,
  after_get-IsValid, delete-IsValid,
}

-- A valid first tier, whose every entry agrees with the second.
pub record IsCoherent {V : Type 0} (f : String → Option V) (c : L1Storage V) : Type 0 where
  pub valid : IsValid c
  pub agrees : (k : String) (v : V) → lookup k c.items ≡ some v → f k ≡ some v

module _ {V : Type 0} (f g : String → Option V) (c : L1Storage V) (k : String) where
  -- A store in both tiers.
  pub set-IsCoherent :
      (v : V)
      → ((j : String) → g j ≡ ite (string_discrete k j) (some v) (f j))
      → IsCoherent f c
      → IsCoherent g (L1.set k v c)
  set-IsCoherent v e h = record {
    valid = set-IsValid k v c h.valid.distinct;
    agrees = λ j w p. ground (
      arith,
      e j,
      set-touch k v c,
      lookup-evict c.max_size j (touch k v c.items) w (touch-Distinct k v c.items h.valid.distinct),
      lookup-touch j k v c.items,
      h.agrees j w,
    );
  }

  pub delete-IsCoherent :
      ((j : String) → g j ≡ ite (string_discrete k j) none (f j))
      → IsCoherent f c
      → IsCoherent g (delete k c).1
  unfolding delete
  delete-IsCoherent e h = record {
    valid = delete-IsValid k c h.valid;
    agrees = λ j w p. ground (arith, e j, lookup-remove j k c.items, h.agrees j w);
  }

module _ {V : Type 0} (f : String → Option V) (c : L1Storage V) (k : String) where
  -- Warming with what the second tier answers.
  pub warm-IsCoherent : (v : V) → f k ≡ some v → IsCoherent f c → IsCoherent f (L1.set k v c)
  warm-IsCoherent v e = set-IsCoherent f f c k v (λ j. ground arith)

  pub after_get-IsCoherent : IsCoherent f c → IsCoherent f (after_get k c)
  unfolding after_get
  after_get-IsCoherent h = record {
    valid = after_get-IsValid k c h.valid;
    agrees = λ j w p. elim (Option-cases (lookup k c.items)) [
      | inl e ↦ ground (arith, h.agrees j w)
      | inr (x, e) ↦ ground (arith, h.agrees j w, lookup-touch j k x c.items)
    ];
  }
