-- ===== src/Tests/Topics.antt =====
-- A topic that is its position and what is committed, and the theorems on the Kafka queue at it.
use sse_llm_streaming_servic.Base.{
  ℕ, ◌+◌, ◌≡◌, refl, ap, String, List, [], ◌∷◌, true, false, none, ok, raise, error, queue_error,
  length, ◌⊎◌, try, throw,
}
use sse_llm_streaming_servic.Kafka.{
  Clients, KafkaQueue, QueueMessage, Environment, consume, acknowledge, produce, initialize,
  initialize_consumer, fetch_messages, create_queue_messages,
}
use sse_llm_streaming_servic.Kafka.Offsets.{IsConsumer, size, consume-acknowledge}
use sse_llm_streaming_servic.Kafka.Producing.{Told, produce-Told, consume-unstarted}

abbrev Topic : Type 0
Topic = ℕ × ℕ

-- A read returns two records; a producer does not start.
abbrev clients : Clients Topic String
clients = record {
  new_producer = λ w. (ok tt, w);
  start_producer = λ w. (raise (error "no broker"), w);
  stop_producer = λ w. (ok tt, w);
  send = λ payload w. (raise (error "closed"), w);
  new_consumer = λ w. (ok tt, w);
  start_consumer = λ w. (ok tt, w);
  stop_consumer = λ w. (ok tt, w);
  getmany = λ t n w. (
    ok (
        record { partition = 0; offset = w.0; value = [] }
        ∷ record { partition = 0; offset = w.0 + 1; value = [] }
        ∷ []),
    (w.0 + 2, w.1),
  );
  commit = λ w. (ok tt, (w.0, w.0));
}

abbrev environment : Environment Topic String
environment = record {
  clients = clients;
  digits = λ n. "1";
  string = λ t. t;
  is_kafka_error = λ e. true;
  describe = λ e. "Buffer";
  lower = λ t. "buffer";
  load_shedder = none;
}

abbrev laws : IsConsumer clients
laws = record {
  position = λ w. w.0;
  committed = λ w. w.1;
  getmany_position = λ t n w rs e. ap (λ r. w.0 + size r) e;
  commit_ok = λ w. refl;
  commit_committed = λ w. refl;
  commit_position = λ w. refl;
}

abbrev queue : KafkaQueue Topic
queue = record {
  initialized = true;
  producer = true;
  consumer = true;
  metrics = [];
  server = (7, 5);
}

abbrev two_messages : List (QueueMessage String)
two_messages = create_queue_messages environment (
    record { partition = 0; offset = 7; value = [] }
    ∷ record { partition = 0; offset = 8; value = [] }
    ∷ [])

consumed : (consume environment 5 2000 queue).0 ≡ ok two_messages
unfolding consume initialize_consumer fetch_messages
consumed = refl

produce-Told_example :
    let out = produce environment "now" [] queue in
    (((initialize environment queue).0 ≡ raise queue_error)
      × (out.0 ≡ raise queue_error)
      × (out.1.metrics ≡ []))
    ⊎ (((initialize environment queue).0 ≡ ok tt) × Told [] out)
produce-Told_example = produce-Told environment "now" [] queue refl

-- A topic whose consumer does not start.
abbrev unreachable : Environment Topic String
unreachable = record environment {
  clients = record clients { start_consumer = λ w. (raise (error "no broker"), w) };
}

abbrev new_queue : KafkaQueue Topic
new_queue = record queue { consumer = false }

consume-unstarted_example :
    let one = consume unreachable 5 2000 new_queue in
    (one.0 ≡ raise queue_error)
    × (one.1.consumer ≡ true)
    × (consume unreachable 5 1000 one.1
        ≡ try (fetch_messages unreachable 5 1000) (λ x. throw queue_error) one.1)
consume-unstarted_example =
    consume-unstarted unreachable 5 2000 5 1000 new_queue (error "no broker") refl refl refl

consume-acknowledge_example :
    let out = acknowledge environment "1-1" (consume environment 5 2000 queue).1 in
    (out.0 ≡ ok tt)
    × (out.1.server.1 ≡ 7 + length two_messages)
    × (out.1.server.0 ≡ 7 + length two_messages)
consume-acknowledge_example =
    consume-acknowledge environment laws 5 2000 "1-1" queue two_messages refl consumed
