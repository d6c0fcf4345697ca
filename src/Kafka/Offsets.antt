-- ===== src/Kafka/Offsets.antt =====
-- What an acknowledgement commits.
use sse_llm_streaming_servic.Base.{
  ℕ, ◌+◌, ◌≡◌, refl, ap, ◌∙◌, String, List, [], ◌∷◌, true, Result, ok, raise, throw, pure,
  then_with, handle_with, sym, suc, arith, length, queue_error,
}
use sse_llm_streaming_servic.Kafka.{
  Record, Clients, KafkaQueue, QueueMessage, Environment, consume, acknowledge, fetch_messages,
  initialize_consumer, create_queue_messages,
}

-- The documented offsets of a consumer: a read moves the position by the records that it returns,
-- and a commit without offsets commits the position, from which a restarted consumer goes on.
pub record IsConsumer {W V : Type 0} (k : Clients W V) : Type 0 where
  pub position : W → ℕ
  pub committed : W → ℕ
  pub getmany_position :
      (t n : ℕ) (w : W) (rs : List (Record V))
      → (k.getmany t n w).0 ≡ ok rs
      → position (k.getmany t n w).1 ≡ position w + length rs
  pub commit_ok : (w : W) → (k.commit w).0 ≡ ok tt
  pub commit_committed : (w : W) → committed (k.commit w).1 ≡ position w
  pub commit_position : (w : W) → position (k.commit w).1 ≡ position w

abbrev pub size : {A : Type 0} → Result (List A) → ℕ
size (ok xs) = length xs
size (raise e) = 0

module _ {W V : Type 0} (env : Environment W V) where
  length-messages : (rs : List (Record V)) → length (create_queue_messages env rs) ≡ length rs
  unfolding create_queue_messages
  length-messages [] = refl
  length-messages (r ∷ rs) = ap suc (length-messages rs)

  module _ (law : IsConsumer env.clients) where
    acknowledged :
        (t n : ℕ) (id : String) (s : KafkaQueue W) (ms : List (QueueMessage V))
        (x : Result (List (Record V)) × W)
        → x ≡ env.clients.getmany t n s.server
        → s.consumer ≡ true
        → let read : Result (List (QueueMessage V)) × KafkaQueue W =
            handle_with
              (then_with
                (x.0, record s { server = x.1 })
                (λ results. pure (create_queue_messages env results)))
              (λ e. throw queue_error) in
          read.0 ≡ ok ms
          → let out = acknowledge env id read.1 in
            (out.0 ≡ ok tt)
            × (law.committed out.1.server ≡ law.position s.server + length ms)
            × (law.position out.1.server ≡ law.position s.server + length ms)
    unfolding acknowledge
    acknowledged t n id s ms (ok rs, w) got on e =
        let moved : law.position w ≡ law.position s.server + length rs =
          rw (ap (λ (p : Result (List (Record V)) × W). p.1) got)
            (law.getmany_position t n s.server rs (rw (← got) refl)) in
        let same : length rs ≡ length ms =
          sym (length-messages rs) ∙ ap (λ (x : Result (List (QueueMessage V))). size x) e in
        ground (arith, moved, same, law.commit_ok w, law.commit_committed w, law.commit_position w)
    acknowledged t n id s ms (raise x, w) got on e = cc e

    -- With a started consumer, a batch that `consume` returned is committed as a whole by the first acknowledgement,
    -- whichever message it names: it returns, and a consumer that starts again goes on behind the whole batch.
    pub consume-acknowledge :
        (batch_size block_ms : ℕ) (id : String) (s : KafkaQueue W) (ms : List (QueueMessage V))
        → s.consumer ≡ true
        → (consume env batch_size block_ms s).0 ≡ ok ms
        → let out = acknowledge env id (consume env batch_size block_ms s).1 in
          (out.0 ≡ ok tt)
          × (law.committed out.1.server ≡ law.position s.server + length ms)
          × (law.position out.1.server ≡ law.position s.server + length ms)
    consume-acknowledge batch_size block_ms id s ms on e =
        let run : consume env batch_size block_ms s
            ≡ handle_with
                (then_with
                  (
                    (env.clients.getmany block_ms batch_size s.server).0,
                    record s { server = (env.clients.getmany block_ms batch_size s.server).1 },
                  )
                  (λ results. pure (create_queue_messages env results)))
                (λ e. throw queue_error) =
          (unfold consume fetch_messages initialize_consumer in rw on refl) in
        rw run (
          acknowledged block_ms batch_size id s ms
            (env.clients.getmany block_ms batch_size s.server) refl on (rw run at e))
