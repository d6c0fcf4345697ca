-- ===== src/Kafka/Producing.antt =====
-- What a caller of `produce` and the metrics get, and what a consumer that did not start leaves.
use sse_llm_streaming_servic.Base.{
  ℕ, ◌≡◌, refl, ◌∙◌, try, throw, Result-cases, String, List, ◌∷◌, true, false, none, Exn, Result,
  ok, raise, queue_full, queue_error, ◌⊎◌, inl, inr, ◌>>◌, pure, then_with, handle_with, Bool-cases,
  arith, ap,
}
use sse_llm_streaming_servic.Base.Dict.{Dict}
use sse_llm_streaming_servic.Kafka.{
  KafkaQueue, Environment, Metric, attempt, success, failure, initialize, initialize_producer,
  send_message, prepare_payload, produce_failed, produce_now, produce, record_metric,
  is_buffer_full_error, initialize_consumer, fetch_messages, consume,
}

module _ {W : Type 0} where
  -- An attempt and its one outcome, which fits the exception.
  abbrev pub Told : List Metric → Result String × KafkaQueue W → Type 0
  Told before out =
      ((id : String) × (out.0 ≡ ok id) × (out.1.metrics ≡ success ∷ attempt ∷ before))
      ⊎ (((out.0 ≡ raise queue_full) × (out.1.metrics ≡ failure "buffer_full" ∷ attempt ∷ before))
          ⊎ ((out.0 ≡ raise queue_error)
              × ((out.1.metrics ≡ failure "kafka_error" ∷ attempt ∷ before)
                  ⊎ (out.1.metrics ≡ failure "unknown_error" ∷ attempt ∷ before))))

module _ {W V : Type 0} (env : Environment W V) where
  failed-Told :
      (before : List Metric) (e : Exn) (t : KafkaQueue W)
      → t.metrics ≡ attempt ∷ before
      → Told before (produce_failed env e t)
  unfolding produce_failed
  failed-Told before e t told = elim (Bool-cases (env.is_kafka_error e)) [
    | inl k ↦ rw k (elim (Bool-cases (is_buffer_full_error env e)) [
      | inl b ↦ rw b (inr (inl (refl, ap (λ ms. failure "buffer_full" ∷ ms) told)))
      | inr b ↦ rw b (inr (inr (refl, inl (ap (λ ms. failure "kafka_error" ∷ ms) told))))
    ])
    | inr k ↦ rw k (inr (inr (refl, inr (ap (λ ms. failure "unknown_error" ∷ ms) told))))
  ]

  sent-Told :
      (before : List Metric) (p : Result String × KafkaQueue W)
      → p.1.metrics ≡ attempt ∷ before
      → Told before (
          handle_with
            (then_with p (λ msg_id. record_metric success >> pure msg_id))
            (produce_failed env))
  sent-Told before (ok id, t) told = inl (id, refl, ap (λ ms. success ∷ ms) told)
  sent-Told before (raise e, t) told = failed-Told before e t told

  send_message-metrics :
      (payload : Dict V) (s : KafkaQueue W) → (send_message env payload s).1.metrics ≡ s.metrics
  unfolding send_message
  send_message-metrics payload s = ground arith

  -- The initialisation returns or raises `QueueError`, and tells the metrics nothing.
  initialize_producer_cases :
      (s : KafkaQueue W)
      → ((t : KafkaQueue W) × (initialize_producer env s ≡ (raise queue_error, t))
          × (t.metrics ≡ s.metrics))
        ⊎ ((t : KafkaQueue W) × (initialize_producer env s ≡ (ok tt, t)) × (t.metrics ≡ s.metrics))
  unfolding initialize_producer
  initialize_producer_cases s =
      let w : W = (env.clients.new_producer s.server).1 in
      let t : KafkaQueue W = record s {
        producer = true;
        server = (env.clients.start_producer w).1;
      } in
      elim (Bool-cases s.producer) [
        | inl b ↦ inr (s, ground arith, refl)
        | inr b ↦ elim (Result-cases (env.clients.new_producer s.server).0) [
          | inr (x, e) ↦ inl (record s { server = w }, ground arith, refl)
          | inl (u, e) ↦ elim (Result-cases (env.clients.start_producer w).0) [
            | inr (x, e2) ↦ inl (t, ground arith, refl)
            | inl (v, e2) ↦ inr (t, ground arith, refl)
          ]
        ]
      ]

  initialize_cases :
      (s : KafkaQueue W)
      → ((t : KafkaQueue W) × (initialize env s ≡ (raise queue_error, t)) × (t.metrics ≡ s.metrics))
        ⊎ ((t : KafkaQueue W) × (initialize env s ≡ (ok tt, t)) × (t.metrics ≡ s.metrics))
  unfolding initialize
  initialize_cases s = elim (Bool-cases s.initialized) [
    | inl b ↦ inr (s, ground arith, refl)
    | inr b ↦ elim (initialize_producer_cases s) [
      | inl (t, e, same) ↦ inl (t, ground arith, same)
      | inr (t, e, same) ↦ inr (record t { initialized = true }, ground arith, same)
    ]
  ]

  -- What follows the initialisation.
  produce_lem :
      (now : String) (payload : Dict V) (s t : KafkaQueue W)
      → env.load_shedder ≡ none
      → initialize env s ≡ (ok tt, t)
      → produce env now payload s ≡ produce_now env now payload t
  unfolding produce
  produce_lem now payload s t no_shedder e = simp (e, no_shedder)

  -- Whatever Kafka does: a call of `produce` on a queue without a shedder whose initialisation fails raises
  -- `QueueError` and tells the metrics nothing; else it tells them of one attempt and then of one outcome: a
  -- success if it returns, a full buffer if it raises `QueueFullError`, and a Kafka error or an unknown error if it
  -- raises `QueueError`. It raises nothing else.
  pub produce-Told :
      (now : String) (payload : Dict V) (s : KafkaQueue W)
      → env.load_shedder ≡ none
      → let out = produce env now payload s in
        (((initialize env s).0 ≡ raise queue_error)
          × (out.0 ≡ raise queue_error)
          × (out.1.metrics ≡ s.metrics))
        ⊎ (((initialize env s).0 ≡ ok tt) × Told s.metrics out)
  produce-Told now payload s no_shedder = elim (initialize_cases s) [
    | inl (t, e, same) ↦
        let run : produce env now payload s ≡ (raise queue_error, t) =
          (unfold produce in simp (e, no_shedder)) in
        inl (ap (λ (x : Result (Unit {0}) × KafkaQueue W). x.0) e, rw run refl, rw run same)
    | inr (t, e, same) ↦
        let sending : KafkaQueue W = record t { metrics = attempt ∷ t.metrics } in
        let run = produce_lem now payload s t no_shedder e in
        inr (
          ap (λ (x : Result (Unit {0}) × KafkaQueue W). x.0) e,
          rw run (
              unfold produce_now in
              sent-Told s.metrics (send_message env (prepare_payload env now payload) sending) (
                send_message-metrics (prepare_payload env now payload) sending
                ∙ ap (λ ms. attempt ∷ ms) same)),
        )
  ]

  -- When the start of a new queue's consumer raises, the first call of `consume` raises `QueueError` and the queue
  -- keeps the consumer; the next call starts nothing and reads from the consumer that never started.
  pub consume-unstarted :
      (batch_size block_ms batch_size2 block_ms2 : ℕ) (s : KafkaQueue W) (e : Exn)
      → s.consumer ≡ false
      → (env.clients.new_consumer s.server).0 ≡ ok tt
      → (env.clients.start_consumer (env.clients.new_consumer s.server).1).0 ≡ raise e
      → let one = consume env batch_size block_ms s in
        (one.0 ≡ raise queue_error)
        × (one.1.consumer ≡ true)
        × (consume env batch_size2 block_ms2 one.1
            ≡ try (fetch_messages env batch_size2 block_ms2) (λ x. throw queue_error) one.1)
  unfolding consume initialize_consumer
  consume-unstarted batch_size block_ms batch_size2 block_ms2 s e empty built broken =
      let t : KafkaQueue W = record s {
        consumer = true;
        server = (env.clients.start_consumer (env.clients.new_consumer s.server).1).1;
      } in
      let first : consume env batch_size block_ms s ≡ (raise queue_error, t) = ground arith in
      rw first (refl, refl, refl)
