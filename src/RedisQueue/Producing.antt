-- ===== src/RedisQueue/Producing.antt =====
-- What `produce` does over a server that answers: where the message goes, and what the metrics learn.
use sse_llm_streaming_servic.Base.{
  ℕ, zero, suc, ◌≡◌, refl, ◌∙◌, String, ◌∷◌, Bool, true, false, not, Option, none, M, Exn, Result,
  ok, raise, queue_full, retry_error, queue_error, arith, ◌>>◌, pure, throw, handle_with, then_with,
  leb, if◌then◌else◌, Bool-cases, inl, inr,
}
use sse_llm_streaming_servic.Base.Dict.{Dict}
use sse_llm_streaming_servic.Serializer.{Value, serialize}
use sse_llm_streaming_servic.RedisQueue.{
  Streams, attempt, success, failure, depth, Queue, Environment, check_capacity, initialize,
  produce_message, retry_with_backpressure, produce_with_backpressure, sheds, admit, produce,
  max_len_or, told, is_queue_full, is_redis_error,
}

-- Servers on which the length is read, and an entry is added, without an error.
pub record IsStreams {W : Type 0} (streams : Streams W) : Type 0 where
  pub length_of : W → ℕ
  pub added : Dict String → ℕ → W → W
  pub entry_id : Dict String → ℕ → W → String
  pub xlen_ok : (w : W) → streams.xlen w ≡ (ok (length_of w), w)
  pub xadd_ok :
      (d : Dict String) (n : ℕ) (w : W) → streams.xadd d n w ≡ (ok (entry_id d n w), added d n w)

-- Tenacity's `retry` with a stop after so many attempts, for `QueueFullError` and without `reraise`:
-- what others do to the server while it waits, and what it gives back.
pub record IsRetry {W : Type 0} (retry : ℕ → M (Queue W) String → M (Queue W) String) : Type 0 where
  pub others : W → W
  pub returns :
      (n : ℕ) (m : M (Queue W) String) (s s' : Queue W) (a : String)
      → m s ≡ (ok a, s')
      → retry (suc n) m s ≡ (ok a, s')
  pub gives_up :
      (m : M (Queue W) String) (s s' : Queue W)
      → m s ≡ (raise queue_full, s')
      → retry 1 m s ≡ (raise retry_error, s')
  pub goes_on :
      (n : ℕ) (m : M (Queue W) String) (s s' : Queue W)
      → m s ≡ (raise queue_full, s')
      → retry (suc (suc n)) m s ≡ retry (suc n) m (record s' { server = others s'.server })

module _ {W D N : Type 0} (env : Environment W D N) (law : IsStreams env.streams)
    (waits : IsRetry env.retry) where
  -- The server after the waits, and whether it has room, for so many attempts after the first.
  unfoldable pub settled : ℕ → W → Bool × W
  settled zero w = (not (leb env.max_depth (law.length_of w)), w)
  settled (suc n) w =
      let more = settled n (waits.others w) in
      if leb env.max_depth (law.length_of w) then more else (true, w)

  module _ (now : String) (payload : Dict (Value D N)) (max_len : ℕ) where
    abbrev pub fields : Dict String
    fields = serialize env.codec now payload

    -- The message is added to a server, or the attempts are used up.
    abbrev pub added_to : Queue W → Bool × W → Result String × Queue W
    added_to s (true, w) =
        (ok (law.entry_id fields max_len w), record s { server = law.added fields max_len w })
    added_to s (false, w) = (raise retry_error, record s { server = w })

    produce_message_lem :
        (s : Queue W) → produce_message env now payload max_len s ≡ added_to s (true, s.server)
    unfolding produce_message
    produce_message_lem s = rw (law.xadd_ok fields max_len s.server) refl

    attempt-full :
        (s : Queue W)
        → leb env.max_depth (law.length_of s.server) ≡ true
        → retry_with_backpressure env now payload max_len s ≡ (raise queue_full, s)
    unfolding retry_with_backpressure
    attempt-full s e = rw (law.xlen_ok s.server, e) refl

    attempt-free :
        (s : Queue W)
        → leb env.max_depth (law.length_of s.server) ≡ false
        → retry_with_backpressure env now payload max_len s ≡ added_to s (true, s.server)
    unfolding retry_with_backpressure
    attempt-free s e = rw (law.xlen_ok s.server, e) (produce_message_lem s)

    retry_lem :
        (n : ℕ) (s : Queue W)
        → env.retry (suc n) (retry_with_backpressure env now payload max_len) s
          ≡ added_to s (settled n s.server)
    unfolding settled
    retry_lem zero s = elim (Bool-cases (leb env.max_depth (law.length_of s.server))) [
      | inl e ↦ rw (e, waits.gives_up _ s s (attempt-full s e)) refl
      | inr e ↦ rw (e, waits.returns 0 _ s _ _ (attempt-free s e)) refl
    ]
    retry_lem (suc n) s = elim (Bool-cases (leb env.max_depth (law.length_of s.server))) [
      | inl e ↦
          rw (e, waits.goes_on n _ s s (attempt-full s e))
            (retry_lem n (record s { server = waits.others s.server }))
      | inr e ↦ rw (e, waits.returns (suc n) _ s _ _ (attempt-free s e)) refl
    ]

    -- A message that was added is a success for the metrics, and nothing else is told them.
    abbrev pub counted : Result String × Queue W → Result String × Queue W
    counted (ok a, s) = (ok a, record s { metrics = success ∷ s.metrics })
    counted (raise e, s) = (raise e, s)

    retry_count_lem :
        (k n : ℕ) (s : Queue W)
        → k ≡ suc n
        → env.retry k (retry_with_backpressure env now payload max_len) s
          ≡ added_to s (settled n s.server)
    retry_count_lem k n s e = rw e (retry_lem n s)

    -- The handler of `produce_with_backpressure`, and that of `produce`, meet no error that they know.
    abbrev full_handler : Exn → M (Queue W) String
    full_handler e = if is_queue_full e then told (failure "queue_full") >> throw e else throw e

    full_handler-passes :
        (s : Queue W) (p : Bool × W) → handle_with (added_to s p) full_handler ≡ added_to s p
    full_handler-passes s (true, w) = refl
    full_handler-passes s (false, w) = refl

    backpressure_lem :
        (n : ℕ) (s : Queue W)
        → env.max_retries ≡ suc n
        → produce_with_backpressure env now payload max_len s ≡ added_to s (settled n s.server)
    unfolding produce_with_backpressure
    backpressure_lem n s e =
        rw (retry_count_lem env.max_retries n s e) (full_handler-passes s (settled n s.server))

    settled-room :
        (n : ℕ) (w : W)
        → (settled n w).0 ≡ true
        → leb env.max_depth (law.length_of (settled n w).1) ≡ false
    unfolding settled
    settled-room zero w e = ground arith
    settled-room (suc n) w e = elim (Bool-cases (leb env.max_depth (law.length_of w))) [
      | inl full ↦ rw full (settled-room n (waits.others w) (rw full at e))
      | inr free ↦ rw free free
    ]

    settled-free :
        (n : ℕ) (w : W) → leb env.max_depth (law.length_of w) ≡ false → settled n w ≡ (true, w)
    unfolding settled
    settled-free zero w e = rw e refl
    settled-free (suc n) w e = rw e refl

    admitted :
        (s : Queue W) (p : Bool × W)
        → then_with (added_to s p) (λ message_id. told success >> pure message_id)
          ≡ counted (added_to s p)
    admitted s (true, w) = refl
    admitted s (false, w) = refl

    sheds-none : (w : W) → env.load_shedder ≡ none → sheds env w ≡ false
    unfolding sheds
    sheds-none w e = simp (e, sheds) refl

    admit_lem :
        (n : ℕ) (s : Queue W)
        → env.max_retries ≡ suc n
        → env.load_shedder ≡ none
        → admit env now payload max_len (law.length_of s.server) s
          ≡ counted (added_to s (settled n s.server))
    unfolding admit check_capacity
    admit_lem n s e quiet = elim (Bool-cases (leb env.max_depth (law.length_of s.server))) [
      | inl full ↦
          rw (sheds-none s.server quiet, full, backpressure_lem n s e)
            (admitted s (settled n s.server))
      | inr free ↦
          rw (sheds-none s.server quiet, free, produce_message_lem s, settled-free n s.server free)
            refl
    ]

    abbrev pub redis_handler : Exn → M (Queue W) String
    redis_handler e =
        if is_redis_error e then told (failure "redis_error") >> throw queue_error else throw e

    redis_handler-passes :
        (s : Queue W) (p : Bool × W)
        → handle_with (counted (added_to s p)) redis_handler ≡ counted (added_to s p)
    redis_handler-passes s (true, w) = refl
    redis_handler-passes s (false, w) = refl

    counted-room :
        (s : Queue W) (p : Bool × W)
        → p.0 ≡ true
        → counted (added_to s p) ≡ (
          ok (law.entry_id fields max_len p.1),
          record s { metrics = success ∷ s.metrics; server = law.added fields max_len p.1 },
        )
    counted-room s (true, w) e = refl
    counted-room s (false, w) e = cc e

    counted-full :
        (s : Queue W) (p : Bool × W)
        → p.0 ≡ false
        → counted (added_to s p) ≡ (raise retry_error, record s { server = p.1 })
    counted-full s (true, w) e = cc e
    counted-full s (false, w) e = refl

  initialize-ready : (s : Queue W) → s.initialized ≡ true → initialize env s ≡ (ok tt, s)
  unfolding initialize
  initialize-ready s e = simp e refl

  -- Over a server that answers, an initialised queue with no load shedder and one attempt at least adds a message
  -- once, to the first state of the server that it finds with room, now or after a wait, and tells the metrics
  -- of the attempt, the depth and one success. If no attempt finds room, it adds nothing, raises tenacity's
  -- `RetryError`, and tells the metrics of no failure.
  pub produce_lem :
      (now : String) (payload : Dict (Value D N)) (max_len : Option ℕ) (n : ℕ) (s : Queue W)
      → env.max_retries ≡ suc n
      → env.load_shedder ≡ none
      → s.initialized ≡ true
      → let s1 = record s { metrics = depth (law.length_of s.server) ∷ attempt ∷ s.metrics } in
        let found = settled n s.server in
        let fields = serialize env.codec now payload in
        (found.0 ≡ true
          → (produce env now payload max_len s ≡ (
            ok (law.entry_id fields (max_len_or env max_len) found.1),
            record s1 {
              metrics = success ∷ s1.metrics;
              server = law.added fields (max_len_or env max_len) found.1;
            },
          ))
            × (leb env.max_depth (law.length_of found.1) ≡ false))
        × (found.0 ≡ false
            → produce env now payload max_len s
              ≡ (raise retry_error, record s1 { server = found.1 }))
  unfolding produce
  produce_lem now payload max_len n s e quiet ready =
      let s1 : Queue W = record s {
        metrics = depth (law.length_of s.server) ∷ attempt ∷ s.metrics;
      } in
      let k = max_len_or env max_len in
      let ran : produce env now payload max_len s
          ≡ counted now payload k (added_to now payload k s1 (settled n s.server)) =
        rw (initialize-ready s ready, law.xlen_ok s.server, admit_lem now payload k n s1 e quiet)
          (redis_handler-passes now payload k s1 (settled n s.server)) in
      (
        (λ room. (
          ran ∙ counted-room now payload k s1 (settled n s.server) room,
          settled-room now payload k n s.server room,
        )),
        (λ none_left. ran ∙ counted-full now payload k s1 (settled n s.server) none_left),
      )
