-- ===== src/Orchestrator.antt =====
-- `StreamOrchestrator.stream` of src/llm_stream/services/stream_orchestrator.py: the stages of a
-- request over the validator, the cache, the choice of a provider, the provider's chunks and the
-- tracker. The generator's events are collected, the newest first; its consumer may close it at any
-- event. Metrics, logging and the heartbeat task, which only waits and logs, are left out.
pub mod Effects
pub mod Ending
pub mod Repeated
pub mod Restoring
pub mod Runs
pub mod Relayed
pub mod Storing
pub mod Views
use Prim.Native.String.{◌++◌ as str_append}
use sse_llm_streaming_servic.Base.{
  ℕ, ◌+◌, ◌-◌, String, List, [], ◌∷◌, Bool, true, false, Option, none, some, M, Exn, Result, ok,
  raise, all_providers_down, validation_error, generator_exit, provider_error, char_count,
  connection_pool_exhausted, user_connection_limit, connection_pool_error, circuit_breaker_open,
  queue_full, queue_error, cache_connection_error, cache_key_error, prometheus_connection_error,
  prometheus_query_error, prometheus_extraction_error, then_with, ◌>>=◌, ◌>>◌, pure, throw, leb,
  if◌then◌else◌, ite, string_discrete,
}
use sse_llm_streaming_servic.Redis.{RedisClient}
use sse_llm_streaming_servic.Circuit.{DistributedCircuitBreaker}
use sse_llm_streaming_servic.Cache.Store.{Store}
use sse_llm_streaming_servic.Cache.Manager as Manager
use sse_llm_streaming_servic.Cache.Manager.{CacheManager}
use sse_llm_streaming_servic.Provider as Provider
use sse_llm_streaming_servic.Validators.{
  Rules, Outcome, passes, fails, validate_query, validate_model,
}
use sse_llm_streaming_servic.Tracker.{Traced, track_stage, clear_thread_data}
use sse_llm_streaming_servic.Tracker.Summary.{get_execution_summary}

-- The fields of `StreamRequest` that are read.
pub record StreamRequest : Type 0 where
  pub query : String
  pub model : String
  pub provider : Option String
  pub thread_id : String

-- What a provider's `stream` yields: it ends, it raises, or it gives a chunk, whose finish reason
-- may be missing, and goes on.
pub data Chunks : Type 0 where
  finished : Chunks
  failed : Exn → Chunks
  chunk : String → Option String → Chunks → Chunks

-- The events of a stream, by their kind and data. An error has the class and the text of the
-- exception if it is an `SSEBaseError`.
pub data SseEvent : Type 0 where
  status : String → SseEvent
  content : String → ℕ → Option String → SseEvent
  cached_content : String → SseEvent
  complete : String → ℕ → ℕ → ℕ → SseEvent
  cached_complete : String → SseEvent
  sse_error : Exn → String → SseEvent
  internal_error : String → SseEvent

pub record Service (W R : Type 0) : Type 0 where
  pub active_connections : ℕ
  pub cache : CacheManager String W
  pub providers : Provider.World R
  pub emitted : List SseEvent

-- What the orchestrator is given. `closes` says whether the consumer closes the generator at the
-- newest of the events; MD5 is a parameter, as a number and as its digits.
pub record Environment (W R : Type 0) : Type 0 where
  pub store : Store String W
  pub redis : RedisClient R
  pub get_breaker : String → DistributedCircuitBreaker
  pub construct : String → Option Exn
  pub chunks : (provider query model : String) → Chunks
  pub rules : Rules
  pub closes : List SseEvent → Bool
  pub md5 : String → ℕ
  pub elapsed : Traced (Service W R) → Traced (Service W R) → ℕ
  pub hexdigest : String → String
  pub max_connections : ℕ
  pub response_ttl : ℕ

-- Whether an exception's class derives from `SSEBaseError`; the validators' class does not.
unfoldable pub is_sse_base : Exn → Bool
is_sse_base connection_pool_exhausted = true
is_sse_base user_connection_limit = true
is_sse_base connection_pool_error = true
is_sse_base circuit_breaker_open = true
is_sse_base all_providers_down = true
is_sse_base queue_full = true
is_sse_base queue_error = true
is_sse_base (provider_error text) = true
is_sse_base cache_connection_error = true
is_sse_base cache_key_error = true
is_sse_base prometheus_connection_error = true
is_sse_base prometheus_query_error = true
is_sse_base prometheus_extraction_error = true
is_sse_base _ = false

-- `if cached_response`: an empty text counts as none.
unfoldable pub present : Option String → Option String
present none = none
present (some text) = ite (string_discrete text "") none (some text)

-- The validators' exception, whose class is left out.
abbrev pub result_of : Outcome → Result (Unit {0})
result_of passes = ok tt
result_of (fails e) = raise validation_error

-- `finally`.
abbrev pub finally : {S A : Type 0} → (S → S) → Result A × S → Result A × S
finally f (a, s) = (a, f s)

-- `except SSEBaseError` and `except Exception`, which a closed generator passes by.
abbrev pub except_exception : {S A : Type 0} → Result A × S → (Exn → M S A) → Result A × S
except_exception (ok a, s) h = (ok a, s)
except_exception (raise generator_exit, s) h = (raise generator_exit, s)
except_exception (raise e, s) h = h e s

module _ {W R : Type 0} (env : Environment W R) where
  -- The key of a response.
  abbrev pub cache_key : StreamRequest → String
  cache_key request =
      Manager.generate_cache_key env.hexdigest "response" (request.query ∷ request.model ∷ [])

  -- The cache is called outside the tracker: the sub-stages 2.1 to 2.3 that it times are left out.
  abbrev pub on_cache : {A : Type 0} → M (CacheManager String W) A → M (Traced (Service W R)) A
  on_cache m s =
      let (a, c) = m s.state.cache in (a, record s { state = record s.state { cache = c } })

  abbrev pub on_providers : {A : Type 0} → M (Provider.World R) A → M (Traced (Service W R)) A
  on_providers m s =
      let (a, p) = m s.state.providers in (a, record s { state = record s.state { providers = p } })

  abbrev pub stage :
      {A : Type 0}
      → StreamRequest
      → String
      → String
      → M (Traced (Service W R)) A
      → M (Traced (Service W R)) A
  stage request stage_id stage_name =
      track_stage env.md5 env.elapsed stage_id stage_name request.thread_id false

  abbrev pub yielded :
      SseEvent → Traced (Service W R) → Bool → Result (Unit {0}) × Traced (Service W R)
  yielded event s true = (
    raise generator_exit,
    record s { state = record s.state { emitted = event ∷ s.state.emitted } },
  )
  yielded event s false =
      (ok tt, record s { state = record s.state { emitted = event ∷ s.state.emitted } })

  unfoldable pub yield_event : SseEvent → M (Traced (Service W R)) (Unit {0})
  yield_event event s = yielded event s (env.closes (event ∷ s.state.emitted))

  unfoldable pub check_connection_limit : ℕ → Result (Unit {0})
  check_connection_limit current =
      if leb env.max_connections current then raise validation_error else ok tt

  abbrev pub checked : Result (Unit {0}) → M (Traced (Service W R)) (Unit {0})
  checked a s = (a, s)

  -- Stage 1.
  unfoldable pub validate : StreamRequest → M (Traced (Service W R)) (Unit {0})
  validate request =
      checked (result_of (validate_query env.rules request.query))
      >> (checked (result_of (validate_model env.rules request.model none))
          >> (λ s. checked (check_connection_limit s.state.active_connections) s))

  -- Stage 4.
  unfoldable pub choose : StreamRequest → M (Traced (Service W R)) String
  choose request =
      on_providers
        (Provider.select_provider env.redis env.get_breaker env.construct request.provider)
      >>= λ provider. elim provider [ none ↦ throw all_providers_down | some p ↦ pure p ]

  -- The `async for` of stage 5: the chunks so far, their text and their number.
  unfoldable pub relay : Chunks → String → ℕ → M (Traced (Service W R)) (String × ℕ)
  relay finished text count = pure (text, count)
  relay (failed e) text count = throw e
  relay (chunk piece finish_reason rest) text count =
      let more = relay rest (str_append text piece) (count + 1) in
      yield_event (content piece (count + 1) finish_reason) >> elim (present finish_reason) [
        | none ↦ more
        | some reason ↦ pure (str_append text piece, count + 1)
      ]

  -- Stage 6: the response is stored, and the summary's time is read.
  unfoldable pub cleanup : StreamRequest → String → M (Traced (Service W R)) ℕ
  cleanup request text =
      on_cache (Manager.set env.store (cache_key request) text (some env.response_ttl) false)
      >> (λ s. (ok (get_execution_summary request.thread_id s.tracker).total_duration_ms, s))

  -- What follows a miss: stages 3 to 6.
  unfoldable pub generate : StreamRequest → M (Traced (Service W R)) (Unit {0})
  generate request =
      stage request "3" "Rate limit verification" (pure tt)
      >> (stage request "4" "Provider selection" (choose request) >>= λ provider.
          stage request "5" "LLM streaming"
            (relay (env.chunks provider request.query request.model) "" 0)
          >>= λ response.
              stage request "6" "Cleanup and caching" (cleanup request response.0) >>= λ duration.
              yield_event (complete request.thread_id response.1 (char_count response.0) duration))

  unfoldable pub reply_cached : StreamRequest → String → M (Traced (Service W R)) (Unit {0})
  reply_cached request text =
      yield_event (cached_content text) >> yield_event (cached_complete request.thread_id)

  -- Stage 2.
  unfoldable pub answer : StreamRequest → Option String → M (Traced (Service W R)) (Unit {0})
  answer request none = generate request
  answer request (some text) = reply_cached request text

  -- The body of the `try`.
  unfoldable pub serve : StreamRequest → M (Traced (Service W R)) (Unit {0})
  serve request =
      stage request "1" "Request validation" (validate request)
      >> (yield_event (status request.thread_id)
          >> (on_cache (Manager.get env.store (cache_key request)) >>= λ cached_response.
              answer request (present cached_response)))

  -- The handlers.
  unfoldable pub report : StreamRequest → Exn → M (Traced (Service W R)) (Unit {0})
  report request e =
      yield_event
        (if is_sse_base e then sse_error e request.thread_id else internal_error request.thread_id)

  abbrev pub opened : Traced (Service W R) → Traced (Service W R)
  opened s = record s {
    state = record s.state { active_connections = s.state.active_connections + 1 };
  }

  abbrev pub closed : StreamRequest → Traced (Service W R) → Traced (Service W R)
  closed request s = record s {
    tracker = clear_thread_data request.thread_id s.tracker;
    state = record s.state { active_connections = s.state.active_connections - 1 };
  }

  unfoldable pub stream : StreamRequest → M (Traced (Service W R)) (Unit {0})
  stream request s =
      finally (closed request) (except_exception (serve request (opened s)) (report request))
