-- ===== src/Kafka.antt =====
-- `KafkaQueue` with its managers of src/infrastructure/message_queue/kafka_queue.py. The clients of
-- aiokafka are a parameter; logging is left out. `produce` changes the caller's payload, as the
-- returned dictionary of `prepare_payload` shows.
pub mod Offsets
pub mod Producing
use Prim.Native.String.{◌++◌ as str_append}
use text.Mathlib.Text.{find?}
use sse_llm_streaming_servic.Base.{
  ℕ, String, List, [], ◌∷◌, Bool, true, false, Option, none, some, M, Exn, Result, ok, raise,
  queue_full, queue_error, ◌>>=◌, ◌>>◌, pure, throw, try, if◌then◌else◌,
}
use sse_llm_streaming_servic.Base.Dict.{Dict, lookup, insert}

-- A record of the topic.
pub record Record (V : Type 0) : Type 0 where
  pub partition : ℕ
  pub offset : ℕ
  pub value : Dict V

-- The constructors and the methods of the two clients that the code calls; each may raise. `send`
-- is awaited to the delivery, and gives the partition and the offset.
pub record Clients (W V : Type 0) : Type 0 where
  pub new_producer : M W (Unit {0})
  pub start_producer : M W (Unit {0})
  pub stop_producer : M W (Unit {0})
  pub send : Dict V → M W (ℕ × ℕ)
  pub new_consumer : M W (Unit {0})
  pub start_consumer : M W (Unit {0})
  pub stop_consumer : M W (Unit {0})
  pub getmany : ℕ → ℕ → M W (List (Record V))
  pub commit : M W (Unit {0})

pub data Metric : Type 0 where
  attempt : Metric
  success : Metric
  failure : String → Metric

-- `producer` and `consumer` say whether the manager holds a client.
pub record KafkaQueue (W : Type 0) : Type 0 where
  pub initialized : Bool
  pub producer : Bool
  pub consumer : Bool
  pub metrics : List Metric
  pub server : W

pub record QueueMessage (V : Type 0) : Type 0 where
  pub id : String
  pub payload : Dict V
  pub timestamp : V

-- What the queue is given: how a number and a text are written, whether an exception is a
-- `KafkaError`, Python's `str` on exceptions and `lower`, and the shedder.
pub record Environment (W V : Type 0) : Type 0 where
  pub clients : Clients W V
  pub digits : ℕ → String
  pub string : String → V
  pub is_kafka_error : Exn → Bool
  pub describe : Exn → String
  pub lower : String → String
  pub load_shedder : Option (W → Bool)

module _ {W : Type 0} where
  abbrev pub on_server : {A : Type 0} → M W A → M (KafkaQueue W) A
  on_server m s = let (a, w) = m s.server in (a, record s { server = w })

  abbrev pub record_metric : Metric → M (KafkaQueue W) (Unit {0})
  record_metric x s = (ok tt, record s { metrics = x ∷ s.metrics })

  abbrev pub hold_producer : Bool → M (KafkaQueue W) (Unit {0})
  hold_producer b s = (ok tt, record s { producer = b })

  abbrev pub hold_consumer : Bool → M (KafkaQueue W) (Unit {0})
  hold_consumer b s = (ok tt, record s { consumer = b })

module _ {W V : Type 0} (env : Environment W V) where
  -- `ProducerManager.initialize`: the field is set before the client is started. The constructor may
  -- raise: aiokafka's does not know `buffer_memory` and `max_in_flight_requests_per_connection`.
  unfoldable pub initialize_producer : M (KafkaQueue W) (Unit {0})
  initialize_producer s =
      if s.producer
      then (ok tt, s)
      else try
          (on_server env.clients.new_producer
            >> (hold_producer true >> on_server env.clients.start_producer))
          (λ e. throw queue_error) s

  unfoldable pub initialize_consumer : M (KafkaQueue W) (Unit {0})
  initialize_consumer s =
      if s.consumer
      then (ok tt, s)
      else try
          (on_server env.clients.new_consumer
            >> (hold_consumer true >> on_server env.clients.start_consumer))
          (λ e. throw queue_error) s

  -- `KafkaQueue.initialize`.
  unfoldable pub initialize : M (KafkaQueue W) (Unit {0})
  initialize s =
      if s.initialized
      then (ok tt, s)
      else (initialize_producer >> λ s'. (ok tt, record s' { initialized = true })) s

  unfoldable pub message_id : ℕ → ℕ → String
  message_id partition offset =
      str_append (env.digits partition) (str_append "-" (env.digits offset))

  unfoldable pub prepare_payload : String → Dict V → Dict V
  prepare_payload now payload = elim (lookup "timestamp" payload) [
    | none ↦ insert "timestamp" (env.string now) payload
    | some t ↦ payload
  ]

  unfoldable pub send_message : Dict V → M (KafkaQueue W) String
  send_message payload s =
      if s.producer
      then (on_server (env.clients.send payload) >>= λ sent. pure (message_id sent.0 sent.1)) s
      else (raise queue_error, s)

  -- `any(keyword in error_str for keyword in keywords)`
  unfoldable pub any_keyword : String → List String → Bool
  any_keyword error_str [] = false
  any_keyword error_str (keyword ∷ keywords) = elim (find? error_str keyword) [
    | some i ↦ true
    | none ↦ any_keyword error_str keywords
  ]

  unfoldable pub is_buffer_full_error : Exn → Bool
  is_buffer_full_error e =
      any_keyword (env.lower (env.describe e)) ("buffer" ∷ "full" ∷ "memory" ∷ [])

  -- The handlers of `produce`.
  unfoldable pub produce_failed : Exn → M (KafkaQueue W) String
  produce_failed e =
      if env.is_kafka_error e
      then (if is_buffer_full_error e
          then record_metric (failure "buffer_full") >> throw queue_full
          else record_metric (failure "kafka_error") >> throw queue_error)
      else record_metric (failure "unknown_error") >> throw queue_error

  unfoldable pub produce_now : String → Dict V → M (KafkaQueue W) String
  produce_now now payload =
      record_metric attempt
      >> try
          (send_message (prepare_payload now payload) >>= λ msg_id.
            record_metric success >> pure msg_id)
          produce_failed

  -- `should_shed_load`, if there is a shedder.
  abbrev pub sheds : Option (W → Bool) → W → Bool
  sheds none w = false
  sheds (some shed) w = shed w

  unfoldable pub produce : String → Dict V → M (KafkaQueue W) String
  produce now payload = initialize >> λ s.
      if sheds env.load_shedder s.server
      then (record_metric (failure "load_shedding") >> throw queue_full) s
      else produce_now now payload s

  abbrev pub create_queue_message : Record V → QueueMessage V
  create_queue_message r = record {
    id = message_id r.partition r.offset;
    payload = r.value;
    timestamp = elim (lookup "timestamp" r.value) [ none ↦ env.string "" | some t ↦ t ];
  }

  -- The loops of `fetch_messages` and `consume`.
  unfoldable pub create_queue_messages : List (Record V) → List (QueueMessage V)
  create_queue_messages [] = []
  create_queue_messages (r ∷ rs) = create_queue_message r ∷ create_queue_messages rs

  unfoldable pub fetch_messages : ℕ → ℕ → M (KafkaQueue W) (List (QueueMessage V))
  fetch_messages batch_size timeout_ms s =
      if s.consumer
      then (on_server (env.clients.getmany timeout_ms batch_size) >>= λ results.
            pure (create_queue_messages results))
          s
      else (raise queue_error, s)

  unfoldable pub consume : ℕ → ℕ → M (KafkaQueue W) (List (QueueMessage V))
  consume batch_size block_ms =
      initialize_consumer >> try (fetch_messages batch_size block_ms) (λ e. throw queue_error)

  -- The message that is acknowledged is not read.
  unfoldable pub acknowledge : String → M (KafkaQueue W) (Unit {0})
  acknowledge id s = if s.consumer then on_server env.clients.commit s else (ok tt, s)

  abbrev close_producer : M (KafkaQueue W) (Unit {0})
  close_producer s =
      if s.producer
      then (on_server env.clients.stop_producer >> hold_producer false) s
      else (ok tt, s)

  abbrev close_consumer : M (KafkaQueue W) (Unit {0})
  close_consumer s =
      if s.consumer
      then (on_server env.clients.stop_consumer >> hold_consumer false) s
      else (ok tt, s)

  unfoldable pub close : M (KafkaQueue W) (Unit {0})
  close = close_producer >> close_consumer
