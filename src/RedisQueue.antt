-- ===== src/RedisQueue.antt =====
-- `StreamManager`, `BackpressureController`, `RedisQueue` and the body of `ConsumerLoop.run` of
-- src/infrastructure/message_queue/redis_queue.py. The Redis commands and tenacity's `retry` are
-- parameters; logging is left out, and so is the singleton client.
pub mod Producing
pub mod Consuming
use sse_llm_streaming_servic.Base.{
  ℕ, zero, suc, ◌*◌, ◌/◌, String, List, [], ◌∷◌, Bool, true, false, Option, none, some, M, Exn,
  Result, ok, raise, redis_error, queue_error, queue_full, retry_error, ◌>>=◌, ◌>>◌, pure, throw,
  try, then_with, leb, if◌then◌else◌, ite, string_discrete,
}
use sse_llm_streaming_servic.Base.Dict.{Dict, lookup}
use sse_llm_streaming_servic.Serializer.{Value, string, Codec, serialize, deserialize}

-- The commands on the queue's stream and its group.
pub record Streams (W : Type 0) : Type 0 where
  pub xgroup_create : M W (Unit {0})
  pub xlen : M W ℕ
  pub xadd : Dict String → ℕ → M W String
  pub xreadgroup : String → ℕ → ℕ → M W (List (String × Dict String))
  pub xack : String → M W (Unit {0})

-- What the metrics are told.
pub data Metric : Type 0 where
  attempt : Metric
  success : Metric
  failure : String → Metric
  depth : ℕ → Metric

-- The metrics are told the newest first.
pub record Queue (W : Type 0) : Type 0 where
  pub initialized : Bool
  pub metrics : List Metric
  pub server : W

-- The settings and what the queue is given. The threshold counts millionths; `busy_group` is the
-- test for BUSYGROUP in an error's text.
pub record Environment (W D N : Type 0) : Type 0 where
  pub streams : Streams W
  pub busy_group : Exn → Bool
  pub retry : ℕ → M (Queue W) String → M (Queue W) String
  pub codec : Codec D N
  pub load_shedder : Option (W → Bool)
  pub max_depth : ℕ
  pub threshold : ℕ
  pub max_retries : ℕ

abbrev pub on_server : {W A : Type 0} → M W A → M (Queue W) A
on_server m s = let (a, w) = m s.server in (a, record s { server = w })

abbrev pub told : {W : Type 0} → Metric → M (Queue W) (Unit {0})
told e s = (ok tt, record s { metrics = e ∷ s.metrics })

abbrev pub is_redis_error : Exn → Bool
is_redis_error redis_error = true
is_redis_error _ = false

abbrev pub is_queue_full : Exn → Bool
is_queue_full queue_full = true
is_queue_full _ = false

module _ {W D N : Type 0} (env : Environment W D N) where
  -- Whether the queue is full, and whether it comes near that.
  unfoldable pub check_capacity : ℕ → Bool × Bool
  check_capacity current_depth =
      (leb env.max_depth current_depth, leb (env.threshold * env.max_depth / 1000000) current_depth)

  abbrev pub group_created : M (Queue W) (Unit {0})
  group_created s = (ok tt, record s { initialized = true })

  -- A group that is there already is no error.
  unfoldable pub initialize : M (Queue W) (Unit {0})
  initialize s =
      if s.initialized
      then (ok tt, s)
      else (try (on_server env.streams.xgroup_create) (λ e.
              if is_redis_error e
              then (if env.busy_group e then pure tt else throw queue_error)
              else throw e)
            >> group_created)
          s

  unfoldable pub produce_message : String → Dict (Value D N) → ℕ → M (Queue W) String
  produce_message now payload max_len =
      on_server (env.streams.xadd (serialize env.codec now payload) max_len)

  -- The function that is retried.
  unfoldable pub retry_with_backpressure : String → Dict (Value D N) → ℕ → M (Queue W) String
  retry_with_backpressure now payload max_len = on_server env.streams.xlen >>= λ current_depth.
      if leb env.max_depth current_depth
      then throw queue_full
      else produce_message now payload max_len

  unfoldable pub produce_with_backpressure : String → Dict (Value D N) → ℕ → M (Queue W) String
  produce_with_backpressure now payload max_len =
      try (env.retry env.max_retries (retry_with_backpressure now payload max_len))
        (λ e. if is_queue_full e then told (failure "queue_full") >> throw e else throw e)

  -- `self._load_shedder is not None and should_shed`
  unfoldable pub sheds : W → Bool
  sheds w = elim env.load_shedder [ none ↦ false | some should_shed_load ↦ should_shed_load w ]

  unfoldable pub max_len_or : Option ℕ → ℕ
  max_len_or none = env.max_depth
  max_len_or (some n) = n

  -- The body of the `try` of `produce`, after the depth is read.
  unfoldable pub admit : String → Dict (Value D N) → ℕ → ℕ → M (Queue W) String
  admit now payload max_len stream_length s =
      if sheds s.server
      then (told (failure "load_shedding") >> throw queue_full) s
      else ((if (check_capacity stream_length).0
              then produce_with_backpressure now payload max_len
              else produce_message now payload max_len)
            >>= λ message_id. told success >> pure message_id)
          s

  unfoldable pub produce : String → Dict (Value D N) → Option ℕ → M (Queue W) String
  produce now payload max_len =
      initialize
      >> told attempt
      >> try
          (on_server env.streams.xlen >>= λ stream_length.
            told (depth stream_length) >> admit now payload (max_len_or max_len) stream_length)
          (λ e.
            if is_redis_error e then told (failure "redis_error") >> throw queue_error else throw e)

-- A message that is handed to a consumer.
pub record Message (D N : Type 0) : Type 0 where
  pub id : String
  pub payload : Dict (Value D N)
  pub timestamp : Value D N

-- `parsed_data.get("timestamp", "")`
abbrev pub timestamp_or : {D N : Type 0} → Option (Value D N) → Value D N
timestamp_or none = string ""
timestamp_or (some t) = t

abbrev pub message_of : {D N : Type 0} → Codec D N → String × Dict String → Message D N
message_of codec (id, fields) = record {
  id = id;
  payload = deserialize codec fields;
  timestamp = timestamp_or (lookup "timestamp" (deserialize codec fields));
}

module _ {W D N : Type 0} (env : Environment W D N) where
  unfoldable messages : List (String × Dict String) → List (Message D N)
  messages [] = []
  messages (raw ∷ raws) = message_of env.codec raw ∷ messages raws

  unfoldable consume : String → ℕ → ℕ → M (Queue W) (List (Message D N))
  consume consumer_name batch_size block_ms =
      initialize env
      >> try
          (on_server (env.streams.xreadgroup consumer_name batch_size block_ms) >>= λ raw_messages.
            pure (messages raw_messages))
          (λ e. throw (if is_redis_error e then queue_error else e))

  unfoldable acknowledge : String → M (Queue W) (Unit {0})
  acknowledge message_id =
      initialize env
      >> try (on_server (env.streams.xack message_id))
          (λ e. throw (if is_redis_error e then queue_error else e))

-- The server beside what the handler changes, and the sleeps in milliseconds, the newest first.
pub record Consumer (W H : Type 0) : Type 0 where
  pub server : W
  pub handled : H
  pub sleeps : List ℕ

module _ {W H D N : Type 0} (streams : Streams W) (codec : Codec D N)
    (handler : Message D N → M H (Unit {0})) where
  abbrev pub on_stream : {A : Type 0} → M W A → M (Consumer W H) A
  on_stream m s = let (a, w) = m s.server in (a, record s { server = w })

  abbrev pub on_handler : {A : Type 0} → M H A → M (Consumer W H) A
  on_handler m s = let (a, h) = m s.handled in (a, record s { handled = h })

  abbrev pub sleep : ℕ → M (Consumer W H) (Unit {0})
  sleep n s = (ok tt, record s { sleeps = n ∷ s.sleeps })

  -- One message: an error is logged, and the message stays pending.
  unfoldable pub process_message : String × Dict String → M (Consumer W H) (Unit {0})
  process_message raw =
      try (on_handler (handler (message_of codec raw)) >> on_stream (streams.xack raw.0))
        (λ e. pure tt)

  unfoldable pub process_all : List (String × Dict String) → M (Consumer W H) (Unit {0})
  process_all [] = pure tt
  process_all (raw ∷ raws) = process_message raw >> process_all raws

  unfoldable pub pause : List (String × Dict String) → M (Consumer W H) (Unit {0})
  pause [] = sleep 100
  pause (raw ∷ raws) = pure tt

  -- One round of the `while True`.
  unfoldable pub round : String → ℕ → M (Consumer W H) (Unit {0})
  round consumer_name batch_size =
      try
        (on_stream (streams.xreadgroup consumer_name batch_size 2000) >>= λ raw_messages.
          process_all raw_messages >> pause raw_messages)
        (λ e. sleep 5000)
