-- ===== src/Provider.antt =====
-- The choice of a provider: `ProviderFactory` of src/llm_providers/base_provider.py and
-- `_select_provider` of src/llm_stream/services/stream_orchestrator.py. A provider is its name; its
-- class, a client of a network service, is a parameter that may raise when it is constructed.
pub mod Factory
pub mod Selection
use sse_llm_streaming_servic.Base.{
  String, List, [], ◌∷◌, ◌++◌, Bool, true, false, Option, none, some, M, Exn, Result, ok, raise,
  value_error, ◌>>=◌, pure, try, then_with, if◌then◌else◌, ite, string_discrete,
}
use sse_llm_streaming_servic.Redis.{RedisClient, Value}
use sse_llm_streaming_servic.Circuit.{
  DistributedCircuitBreaker, closed, is_open, is_state, get_state,
}

-- The registered names, in the order of registration, and the names whose provider exists.
pub record ProviderFactory : Type 0 where
  pub classes : List String
  pub providers : List String

pub record World (W : Type 0) : Type 0 where
  pub factory : ProviderFactory
  pub server : W

-- `name in names`
unfoldable pub contains : String → List String → Bool
contains name [] = false
contains name (x ∷ xs) = ite (string_discrete x name) true (contains name xs)

unfoldable pub register : String → ProviderFactory → ProviderFactory
register name f =
    if contains name f.classes then f else record f { classes = f.classes ++ name ∷ [] }

-- `if preferred`: an empty text counts as none.
unfoldable pub given : Option String → Option String
given none = none
given (some name) = ite (string_discrete name "") none (some name)

-- `name in exclude`
unfoldable pub excluded : Option String → String → Bool
excluded none name = false
excluded (some preferred) name = ite (string_discrete preferred name) true false

module _ (construct : String → Option Exn) where
  unfoldable pub get : String → M ProviderFactory String
  get name f =
      if contains name f.classes
      then (if contains name f.providers then (ok name, f) else elim (construct name) [
        | some e ↦ (raise e, f)
        | none ↦ (ok name, record f { providers = name ∷ f.providers })
      ])
      else (raise value_error, f)

module _ {W : Type 0} (r : RedisClient W) (get_breaker : String → DistributedCircuitBreaker)
    (construct : String → Option Exn) where
  abbrev pub on_factory : {A : Type 0} → M ProviderFactory A → M (World W) A
  on_factory m s = let (a, f) = m s.factory in (a, record s { factory = f })

  abbrev pub on_server : {A : Type 0} → M W A → M (World W) A
  on_server m s = let (a, w) = m s.server in (a, record s { server = w })

  -- The loop of `get_healthy_provider`.
  unfoldable pub first_healthy : Option String → List String → M (World W) (Option String)
  first_healthy exclude [] = pure none
  first_healthy exclude (name ∷ names) =
      if excluded exclude name
      then first_healthy exclude names
      else (on_server (get_state r (get_breaker name)) >>= λ state.
          if is_state closed state
          then (on_factory (get construct name) >>= λ provider. pure (some provider))
          else first_healthy exclude names)

  unfoldable pub get_healthy_provider : Option String → M (World W) (Option String)
  get_healthy_provider exclude s = first_healthy exclude s.factory.classes s

  -- Step 1 of `_select_provider`: the preferred provider, if its circuit is not open.
  unfoldable pub try_preferred : String → M (World W) (Option String)
  try_preferred preferred =
      try
        (on_factory (get construct preferred) >>= λ provider.
          on_server (get_state r (get_breaker provider)) >>= λ circuit_state.
          if is_state is_open circuit_state then pure none else pure (some provider))
        (λ _. pure none)

  -- Step 2, if step 1 chose nobody.
  unfoldable pub or_healthy : String → Option String → M (World W) (Option String)
  or_healthy preferred (some provider) = pure (some provider)
  or_healthy preferred none = get_healthy_provider (some preferred)

  unfoldable pub select_given : Option String → M (World W) (Option String)
  select_given none = get_healthy_provider none
  select_given (some preferred) = try_preferred preferred >>= or_healthy preferred

  unfoldable pub select_provider : Option String → M (World W) (Option String)
  select_provider preferred = select_given (given preferred)
