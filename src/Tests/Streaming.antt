-- ===== src/Tests/Streaming.antt =====
-- Streams over a cache, two providers and a tracker, and their theorems at them.
use sse_llm_streaming_servic.Base.{
  char_count, ℕ, ◌≡◌, refl, String, List, [], ◌∷◌, Bool, true, false, none, some, ok, raise, error,
  queue_error, generator_exit, ◌⊎◌, arith, if◌then◌else◌, string_discrete, leb, ◌+◌,
}
use sse_llm_streaming_servic.Base.Dict.{lookup}
use sse_llm_streaming_servic.Redis.{Value}
use sse_llm_streaming_servic.Circuit.{is_state, or_closed, get_state, value, state_key, key_prefix}
use sse_llm_streaming_servic.Cache.Manager.Refinement.{put, Represents}
use sse_llm_streaming_servic.Provider.{
  World, select_provider, select_given, given, get_healthy_provider, first_healthy, excluded, get,
  contains,
}
use sse_llm_streaming_servic.Tracker.{ExecutionTracker, Traced, entries}
use sse_llm_streaming_servic.Tracker.Nesting.{Outside}
use sse_llm_streaming_servic.Orchestrator.{
  cache_key, StreamRequest, Chunks, chunk, failed, SseEvent, Service, Environment, present, stream,
  status, complete, cached_content, cached_complete, internal_error, sse_error, is_sse_base,
}
use sse_llm_streaming_servic.Orchestrator.Runs.{Admitted}
use sse_llm_streaming_servic.Orchestrator.Relayed.{pieces, failure, text_of, count_of, contents}
use sse_llm_streaming_servic.Orchestrator.Restoring.{stream-active_connections}
use sse_llm_streaming_servic.Orchestrator.Ending.{Ended, stream-Ended}
use sse_llm_streaming_servic.Orchestrator.Storing.{streamed, reply, stream-stored, stream-broken}
use sse_llm_streaming_servic.Orchestrator.Repeated.{stream-again, stream-full}
use sse_llm_streaming_servic.Tests.Servers.{Server, empty, redis, store, store_laws, write}
use sse_llm_streaming_servic.Tests.Providers.{world, breaker, constructs}
use sse_llm_streaming_servic.Tests.Caching.{no_entries, no_entries-IsCoherent}
use sse_llm_streaming_servic.Cache.Manager.{CacheManager, generate_cache_key, join}
use sse_llm_streaming_servic.Validators.{
  Rules, passes, validate_query, validate_model, is_blank, validate_not_empty, validate_length,
  validate_whitelist, check_security_patterns, check_each, too_short, too_long, valid_models,
  validate_given,
}

-- The server knows the answer to "a".
abbrev server : Server String
server = write "cache:response:response:a:gpt-4" (some "1") empty

abbrev manager : CacheManager String (Server String)
manager = record {
  tiers = record { l1 = no_entries; l2 = server };
  observer = record { hits_l1 = 0; hits_l2 = 0; misses = 0 };
  enabled = true;
  default_ttl = 3600;
  initialized = true;
}

manager-Represents : Represents store store_laws server manager
manager-Represents = record {
  enabled = refl;
  holds = refl;
  coherent = no_entries-IsCoherent server;
}

abbrev lenient : Rules
lenient = record { strip = λ t. t; lower = λ t. t; searches = []; max_length = 100 }

abbrev answer : Chunks
answer = chunk "he" none (chunk "llo" (some "stop") (failed queue_error))

abbrev streams : String → String → String → Chunks
streams provider query model = answer

abbrev open_end : List SseEvent → Bool
open_end es = false

abbrev environment_of :
    (String → String → String → Chunks) → Environment (Server String) (Server Value)
environment_of chunks = record {
  store = store;
  redis = redis;
  get_breaker = breaker;
  construct = constructs;
  chunks = chunks;
  rules = lenient;
  closes = open_end;
  md5 = λ t. 7;
  elapsed = λ a b. 5;
  hexdigest = λ q. q;
  max_connections = 3;
  response_ttl = 60;
}

abbrev pub environment : Environment (Server String) (Server Value)
environment = environment_of streams

abbrev tracker : ExecutionTracker
tracker = record {
  executions = [];
  stage_stack = [];
  tracking_enabled = true;
  sample_rate = 1000000;
}

abbrev pub start : Traced (Service (Server String) (Server Value))
start = record {
  tracker = tracker;
  state = record { active_connections = 0; cache = manager; providers = world; emitted = [] };
}

abbrev pub asks : String → StreamRequest
asks query = record { query = query; model = "gpt-4"; provider = none; thread_id = "t" }

stays : (es : List SseEvent) → environment.closes es ≡ false
stays es = refl

passes_b : validate_query lenient "b" ≡ passes
unfolding validate_query validate_not_empty is_blank string_discrete validate_length too_short
    char_count too_long check_security_patterns check_each
passes_b = refl

passes_model : validate_model lenient "gpt-4" none ≡ passes
unfolding validate_model validate_not_empty is_blank string_discrete validate_whitelist contains
    valid_models validate_given given
passes_model = refl

admits_b : Admitted environment store_laws stays (asks "b") start
admits_b = record { query = passes_b; model = passes_model; below = ground arith }

outside : Outside "t" [] tracker
unfolding entries lookup
outside = record { stack = refl; recorded = refl }

stream-active_connections_example :
    let after = (stream environment (asks "a") start).1 in
    (after.state.active_connections ≡ 0)
    × (lookup "t" after.tracker.executions ≡ none)
    × (lookup "t" after.tracker.stage_stack ≡ none)
stream-active_connections_example = stream-active_connections environment (asks "a") start

stream-Ended_example :
    let out = stream environment (asks "b") start in
    ((out.0 ≡ ok tt) ⊎ (out.0 ≡ raise generator_exit)) × Ended [] out.0 out.1.state.emitted
stream-Ended_example = stream-Ended environment (asks "b") start

abbrev turned : World (Server Value)
turned = record world { factory = record world.factory { providers = "gemini" ∷ [] } }

chosen : select_provider redis breaker constructs none world ≡ (ok (some "gemini"), turned)
unfolding select_provider select_given given get_healthy_provider first_healthy excluded get
    contains get_state or_closed is_state value string_discrete state_key key_prefix
chosen = refl

miss : present (server (cache_key environment (asks "b"))) ≡ none
unfolding present string_discrete generate_cache_key join
miss = refl

whole : failure answer ≡ none
unfolding failure present string_discrete
whole = refl

gathered : reply environment store_laws stays (asks "b") "gemini" ≡ "hello"
unfolding reply streamed text_of pieces present string_discrete
gathered = refl

full_text :
    present (some (reply environment store_laws stays (asks "b") "gemini"))
    ≡ some (reply environment store_laws stays (asks "b") "gemini")
unfolding reply streamed text_of pieces present string_discrete
full_text = refl

stream-stored_example :
    let out = stream environment (asks "b") start in
    let text = reply environment store_laws stays (asks "b") "gemini" in
    let sent = streamed environment store_laws stays (asks "b") "gemini" in
    (out.0 ≡ ok tt)
    × ((d : ℕ) × (out.1.state.emitted
          ≡ complete "t" (count_of 0 sent) (char_count text) d ∷ contents 0 sent (status "t" ∷ [])))
    × Represents store store_laws
        (put (cache_key environment (asks "b")) (some text) server)
        out.1.state.cache
stream-stored_example =
    stream-stored environment store_laws stays (asks "b") server [] start "gemini" turned admits_b
      outside manager-Represents miss chosen whole

stream-again_example :
    let first = (stream environment (asks "b") start).1 in
    let second = stream environment (asks "b") first in
    (second.0 ≡ ok tt)
    × (second.1.state.emitted
        ≡ cached_complete "t"
          ∷ cached_content (reply environment store_laws stays (asks "b") "gemini")
          ∷ status "t"
          ∷ first.state.emitted)
    × (second.1.state.providers ≡ first.state.providers)
stream-again_example =
    stream-again environment store_laws stays (asks "b") server [] start "gemini" turned admits_b
      outside manager-Represents miss chosen whole full_text

-- A provider that fails after one chunk.
abbrev half : String → String → String → Chunks
half provider query model = chunk "he" none (failed (error "reset"))

abbrev broken : Environment (Server String) (Server Value)
broken = environment_of half

stays_broken : (es : List SseEvent) → broken.closes es ≡ false
stays_broken es = refl

admits_broken : Admitted broken store_laws stays_broken (asks "b") start
admits_broken = record { query = passes_b; model = passes_model; below = ground arith }

fails : failure (half "gemini" "b" "gpt-4") ≡ some (error "reset")
unfolding failure present
fails = refl

not_closed : ¬ (error "reset" ≡ generator_exit)
not_closed e = cc e

stream-broken_example :
    let out = stream broken (asks "b") start in
    (out.0 ≡ ok tt)
    × (out.1.state.emitted
        ≡ (if is_sse_base (error "reset")
            then sse_error (error "reset") "t"
            else internal_error "t")
          ∷ contents 0
              (streamed broken store_laws stays_broken (asks "b") "gemini")
              (status "t" ∷ []))
    × Represents store store_laws server out.1.state.cache
stream-broken_example =
    stream-broken broken store_laws stays_broken (asks "b") server [] start "gemini" turned
      admits_broken outside manager-Represents miss chosen (error "reset") fails not_closed

-- Two of three places are taken.
abbrev busy : Traced (Service (Server String) (Server Value))
busy = record start { state = record start.state { active_connections = 2 } }

at_limit : leb environment.max_connections (busy.state.active_connections + 1) ≡ true
at_limit = ground arith

stream-full_example :
    let out = stream environment (asks "b") busy in
    (out.0 ≡ ok tt)
    × (out.1.state.emitted ≡ internal_error "t" ∷ [])
    × (out.1.state.cache ≡ manager)
    × (out.1.state.providers ≡ world)
stream-full_example =
    stream-full environment store_laws stays (asks "b") [] busy passes_b passes_model at_limit
      outside
