-- ===== src/Lib.antt =====
-- Verification of the SSE LLM streaming service: the cache, the resilience layer and the queue.
--
-- The program. A request is answered from a two-tier cache or by a provider, behind a circuit
-- breaker and a pool of connections. When the pool is full it goes to a queue: a worker takes it
-- from there, streams it and publishes the events on a channel, which the client's request reads.
--
-- The parts, with the files of the repository:
--   Base          exceptions, results and state-passing computations; Python's dict (Base/Dict);
--                 signed counters (Base/Int); lists and tests on native numbers.
--   Cache/L1      `L1Storage` of src/infrastructure/cache/cache_manager.py, the LRU tier in memory;
--                 its invariant (Cache/L1/Invariant) and its eviction order (Cache/L1/Recency).
--   Cache/Store   the Redis client as the second tier sees it, a parameter with its laws.
--   Cache/Strategy  `CacheStrategy` and `L2Storage.batch_get`: look-through, write-through, batches.
--   Cache/Manager   `CacheManager`, `CacheWarmer` and the counters of `CacheObserver`, and their
--                 refinement of a plain map (Cache/Manager/Refinement).
--   Redis         the Redis commands as a parameter; each of them may raise. `IsRedis` says what a
--                 server that answers does.
--   Circuit       `DistributedCircuitBreaker` of src/core/resilience/circuit_breaker.py, and
--                 `ResilientCall.call` (Circuit/Call).
--   Pipeline      `PipelineManager` of src/infrastructure/cache/redis_client.py, the batching of
--                 commands, as a step relation over calls, cancellations and the timer.
--   Pool          `ConnectionPoolManager` of src/core/resilience/connection_pool_manager.py.
--   Provider      `ProviderFactory` of src/llm_providers/base_provider.py and `_select_provider` of
--                 src/llm_stream/services/stream_orchestrator.py, over the states of Circuit.
--   RateLimit     `LocalRateLimitCache` of src/core/resilience/rate_limiter.py.
--   Request       `QueuedStreamingRequest` of src/core/resilience/queue_request_handler.py.
--   Worker        `MessageProcessor`, `RetryStrategy`, `ConnectionManager`, `StreamPublisher` and
--                 `ConsumerLoop` (Worker/Loop), src/core/resilience/queue_consumer_worker.py. The
--                 worker calls the operations of Pool and stores the requests of Request.
--   Relay         `EventStreamer`, `HeartbeatManager` and the message loop of
--                 src/core/resilience/queue_request_handler.py, which read what Worker publishes.
--   Tracker       `ExecutionTracker` of src/core/observability/execution_tracker.py: the stages of a
--                 request, their nesting (Tracker/Nesting) and their summary (Tracker/Summary).
--   Orchestrator  `StreamOrchestrator.stream` of src/llm_stream/services/stream_orchestrator.py, over
--                 the operations of Cache/Manager, Provider and Tracker. Orchestrator/Views has what
--                 its stages leave alone, on which Orchestrator/Ending and Orchestrator/Restoring
--                 stand; Orchestrator/Runs, Orchestrator/Relayed, Orchestrator/Storing and
--                 Orchestrator/Repeated follow a stream to its end.
--   Serializer, RedisQueue  `MessageSerializer`, and `StreamManager`, `BackpressureController`,
--                 `RedisQueue.produce` and `ConsumerLoop` of
--                 src/infrastructure/message_queue/redis_queue.py.
--   Validators    the validators of src/application/validators/base.py and
--                 src/application/validators/stream_validator.py; the requests that they let pass
--                 (Validators/Acceptance).
--   Client        `RequestEnqueuer`, `StreamSubscriber` and `StreamOrchestrator.stream` of
--                 src/core/resilience/queue_request_handler.py, around the loop of Relay.
--   Streaming     `StreamingService` of src/application/services/streaming_service.py and the run of
--                 its response: the direct stream over Pool and Orchestrator, or the queue over
--                 Client; the connections (Streaming/Connections) and the metrics
--                 (Streaming/Outcomes) of a stream.
--   Kafka         `KafkaQueue` of src/infrastructure/message_queue/kafka_queue.py: what it commits
--                 (Kafka/Offsets) and what it tells of a message (Kafka/Producing).
--   Connection    `ConnectionManager`, `OperationExecutor` and `RedisClient` of
--                 src/infrastructure/cache/redis_client.py.
--   Prometheus, Metrics  `PrometheusClient` of src/infrastructure/monitoring/prometheus_client.py, and
--                 `MetricsService` with its cache of src/application/services/metrics_service.py,
--                 over floats as a parameter (Metrics/Numbers).
--   Tests         the theorems at concrete inputs, over servers kept in functions.
--
-- State and exceptions. A method is a function from its state to a result and the next state. A
-- method under a lock is one step. An exception keeps the changes made before it. The clock is an
-- argument, and times are natural numbers in milliseconds or in the unit of the setting. An
-- asynchronous generator is a computation that collects its events; at each of them its consumer may
-- close it, which raises `generator_exit` there.
--
-- Fuel and bounds. Loops are structural recursion on the keys, the events, the messages or the
-- polls. Only `remove_all` of Relay has fuel, the length of the text, which is enough because each
-- round removes a non-empty occurrence. Counters are unbounded, as Python's are; a counter in
-- Redis is an integer that may be negative.
--
-- Not modelled: logging, and the metrics but those of RedisQueue, Kafka and Client and what the
-- generators of Streaming themselves report, which leave the state alone (in Worker the call of the
-- metrics that raises is kept); the sub-stages that the cache times; the start and stop of services;
-- the HTTP routes but that of the streams; the clients of the providers, and aiokafka, httpx and
-- redis-py, which are parameters; the configuration; cancellation of tasks, but for the flush of
-- Pipeline. Expiry of keys is Redis's, and the laws of the servers hold for keys that do not expire
-- meanwhile.
pub mod Base
pub mod Cache
pub mod Circuit
pub mod Client
pub mod Connection
pub mod Kafka
pub mod Metrics
pub mod Orchestrator
pub mod Pipeline
pub mod Pool
pub mod Prometheus
pub mod Provider
pub mod RateLimit
pub mod Redis
pub mod RedisQueue
pub mod Relay
pub mod Request
pub mod Serializer
pub mod Streaming
pub mod Tests
pub mod Tracker
pub mod Validators
pub mod Worker
