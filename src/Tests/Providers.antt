-- ===== src/Tests/Providers.antt =====
-- The choice among two providers, the first of which has an open circuit.
use sse_llm_streaming_servic.Base.{
  ◌≡◌, refl, String, [], ◌∷◌, true, false, Option, none, some, Exn, ok, string_discrete,
}
use sse_llm_streaming_servic.Redis.{Value, word}
use sse_llm_streaming_servic.Circuit.{
  DistributedCircuitBreaker, is_open, is_state, or_closed, get_state, value, state_key, key_prefix,
}
use sse_llm_streaming_servic.Provider.{
  World, contains, excluded, given, get, first_healthy, get_healthy_provider, try_preferred,
  or_healthy, select_given, select_provider,
}
use sse_llm_streaming_servic.Provider.Selection.{circuit_state, select_provider-circuit_state}
use sse_llm_streaming_servic.Tests.Servers.{Server, empty, write, redis, redis_laws}

abbrev pub breaker : String → DistributedCircuitBreaker
breaker name = record { name = name; max_failures = 2; reset_timeout = 60; connected = true }

abbrev pub constructs : String → Option Exn
constructs name = none

abbrev pub world : World (Server Value)
world = record {
  factory = record { classes = "openai" ∷ "gemini" ∷ []; providers = [] };
  server = write "circuit:openai:state" (some (word "open")) empty;
}

selected : (select_provider redis breaker constructs (some "openai") world).0 ≡ ok (some "gemini")
unfolding select_provider select_given given try_preferred or_healthy get_healthy_provider
    first_healthy excluded get contains get_state or_closed is_state value string_discrete state_key
    key_prefix
selected = refl

connected : (name : String) → (breaker name).connected ≡ true
connected name = refl

select_provider-circuit_state_example :
    (is_state is_open (circuit_state redis redis_laws breaker constructs connected world "gemini")
      ≡ false)
    × (contains "gemini" world.factory.classes ≡ true)
select_provider-circuit_state_example =
    select_provider-circuit_state redis redis_laws breaker constructs connected (some "openai")
      world "gemini" selected

-- No other provider is registered.
abbrev alone : World (Server Value)
alone = record {
  factory = record { classes = "openai" ∷ []; providers = [] };
  server = write "circuit:openai:state" (some (word "open")) empty;
}

nobody : (select_provider redis breaker constructs none alone).0 ≡ ok none
unfolding select_provider select_given given get_healthy_provider first_healthy excluded get
    contains get_state or_closed is_state value string_discrete state_key key_prefix
nobody = refl
