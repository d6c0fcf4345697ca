-- ===== src/Prometheus.antt =====
-- `PrometheusClient` of src/infrastructure/monitoring/prometheus_client.py: its in-process breaker
-- around the queries, and the values that it reads from an answer. The HTTP client, its decoded
-- answers in the documented form, tenacity's `retry` and `float` are parameters; logging is left out.
pub mod Cooldown
use package.text.Mathlib.Text.{starts_with}
use Prim.Native.String.{◌++◌ as str_append}
use sse_llm_streaming_servic.Base.{
  ℕ, ◌+◌, String, List, [], ◌∷◌, Bool, true, false, not, Option, none, some, M, Exn, Result, ok,
  raise, runtime_error, attribute_error, connect_error, timeout_error, http_status_error,
  prometheus_connection_error, prometheus_query_error, prometheus_extraction_error, throw, leb,
  if◌then◌else◌, ite, string_discrete,
}
use sse_llm_streaming_servic.Base.Dict.{Dict, insert}

-- The fields of the client; `initialized` says that it has an HTTP client. Times are in seconds.
pub record PrometheusClient : Type 0 where
  pub initialized : Bool
  pub is_available_local : Bool
  pub consecutive_failures : ℕ
  pub last_failure_time : ℕ
  pub max_failures : ℕ
  pub cooldown_seconds : ℕ

-- `__init__`
abbrev pub created : PrometheusClient
created = record {
  initialized = false;
  is_available_local = true;
  consecutive_failures = 0;
  last_failure_time = 0;
  max_failures = 3;
  cooldown_seconds = 60;
}

-- `__aenter__` and `__aexit__`; the construction of an HTTP client is left out.
abbrev pub enter : PrometheusClient → PrometheusClient
enter c = record c { initialized = true }

abbrev pub leave : PrometheusClient → PrometheusClient
leave c = record c { initialized = false }

unfoldable pub should_attempt_query : ℕ → PrometheusClient → Bool
should_attempt_query now c =
    if c.is_available_local then true else leb (c.last_failure_time + c.cooldown_seconds) now

unfoldable pub record_success : PrometheusClient → PrometheusClient
record_success c = record c { is_available_local = true; consecutive_failures = 0 }

unfoldable pub record_failure : ℕ → PrometheusClient → PrometheusClient
record_failure now c = record c {
  consecutive_failures = c.consecutive_failures + 1;
  last_failure_time = now;
  is_available_local =
      if leb c.max_failures (c.consecutive_failures + 1) then false else c.is_available_local;
}

unfoldable pub is_available : ℕ → PrometheusClient → Bool
is_available now c =
    if not c.is_available_local
    then (if leb (c.last_failure_time + c.cooldown_seconds) now then true else false)
    else true

-- An element of a vector: its labels, and the time and the value. A value is text that `float` reads.
pub record Sample : Type 0 where
  pub metric : Dict String
  pub value : List String

pub data QueryData : Type 0 where
  scalar : List String → QueryData
  vector : List Sample → QueryData
  matrix : List Sample → QueryData
  string : List String → QueryData

-- A decoded answer that is not empty.
pub record Response : Type 0 where
  pub status : String
  pub query_data : QueryData

-- The client and the network; `now` is the time at which a failure is recorded.
pub record World (H : Type 0) : Type 0 where
  pub client : PrometheusClient
  pub network : H

-- A parameter of a request.
pub data Param : Type 0 where
  text : String → Param
  number : ℕ → Param

module _ {H : Type 0} (base_url : String) (get : String → Dict Param → M H (Option Response))
    (retry : M H (Option Response) → M H (Option Response)) where
  abbrev pub answered :
      ℕ → PrometheusClient → Result (Option Response) × H → Result (Option Response) × World H
  answered later c (ok a, h) = (ok a, record { client = record_success c; network = h })
  answered later c (raise connect_error, h) =
      (raise prometheus_connection_error, record { client = record_failure later c; network = h })
  answered later c (raise timeout_error, h) =
      (raise prometheus_connection_error, record { client = record_failure later c; network = h })
  answered later c (raise http_status_error, h) =
      (raise prometheus_query_error, record { client = record_failure later c; network = h })
  answered later c (raise e, h) = (raise e, record { client = c; network = h })

  -- The `try` of `query` and `query_range`.
  unfoldable pub attempt : ℕ → String → Dict Param → M (World H) (Option Response)
  attempt later url params s = answered later s.client (retry (get url params) s.network)

  abbrev guarded : ℕ → ℕ → String → Dict Param → M (World H) (Option Response)
  guarded now later url params s =
      if s.client.initialized
      then (if should_attempt_query now s.client
          then attempt later url params s
          else (raise prometheus_connection_error, s))
      else (raise runtime_error, s)

  unfoldable pub query : ℕ → ℕ → String → M (World H) (Option Response)
  query now later promql =
      guarded now later (str_append base_url "/api/v1/query") (("query", text promql) ∷ [])

  unfoldable pub query_range : ℕ → ℕ → String → ℕ → ℕ → String → M (World H) (Option Response)
  query_range now later promql start end step =
      guarded now later (str_append base_url "/api/v1/query_range") (
        ("query", text promql)
        ∷ ("start", number start)
        ∷ ("end", number end)
        ∷ ("step", text step)
        ∷ [])

module _ {F : Type 0} (float : String → Option F) where
  -- `float(pair[1])`, if the pair has two elements.
  unfoldable pub second : List String → Result (Option F)
  second (t ∷ v ∷ rest) = elim (float v) [
    | none ↦ raise prometheus_extraction_error
    | some x ↦ ok (some x)
  ]
  second _ = ok none

  abbrev extract : QueryData → Result (Option F)
  extract (scalar pair) = second pair
  extract (vector []) = ok none
  extract (vector (x ∷ xs)) = second x.value
  extract (matrix xs) = ok none
  extract (string pair) = ok none

  unfoldable pub extract_scalar_value : Option Response → Result (Option F)
  extract_scalar_value none = ok none
  extract_scalar_value (some response) =
      ite (string_discrete response.status "success") (extract response.query_data)
        (raise prometheus_extraction_error)

  -- The first label whose name is not internal.
  unfoldable pub label_of : Dict String → Option String
  label_of [] = none
  label_of ((name, value) ∷ labels) = if starts_with "__" name then label_of labels else some value

  -- `if key and len(value_pair) >= 2`; a value that is no number is skipped.
  abbrev entered : Option String → List String → Dict F → Dict F
  entered none pair d = d
  entered (some key) (t ∷ v ∷ rest) d =
      ite (string_discrete key "") d (elim (float v) [ none ↦ d | some x ↦ insert key x d ])
  entered (some key) _ d = d

  unfoldable pub collect : List Sample → Dict F → Dict F
  collect [] d = d
  collect (x ∷ xs) d = collect xs (entered (label_of x.metric) x.value d)

  -- The items of a scalar or a text are no dictionaries. Those of a matrix have no value.
  abbrev vector_values : QueryData → Result (Dict F)
  vector_values (vector xs) = ok (collect xs [])
  vector_values (matrix xs) = ok []
  vector_values (scalar []) = ok []
  vector_values (scalar (x ∷ xs)) = raise attribute_error
  vector_values (string []) = ok []
  vector_values (string (x ∷ xs)) = raise attribute_error

  unfoldable pub extract_vector_values : Option Response → Result (Dict F)
  extract_vector_values none = ok []
  extract_vector_values (some response) =
      ite (string_discrete response.status "success") (vector_values response.query_data) (ok [])
