-- ===== src/RedisQueue/Consuming.antt =====
-- What a round of the consumer loop handles and acknowledges.
use sse_llm_streaming_servic.Base.{
  ℕ, ◌≡◌, refl, ap, ◌∙◌, String, List, [], ◌∷◌, M, Result, ok, raise, Result-cases, inl, inr,
}
use sse_llm_streaming_servic.Base.Dict.{Dict}
use sse_llm_streaming_servic.Serializer.{Codec}
use sse_llm_streaming_servic.RedisQueue.{
  Streams, Message, message_of, Consumer, process_message, process_all, pause, round,
}

-- A server that gives the messages out, and takes acknowledgements, without an error.
pub record IsGroup {W : Type 0} (streams : Streams W) : Type 0 where
  pub acked : W → List String
  pub read : String → ℕ → W → List (String × Dict String)
  pub after_read : String → ℕ → W → W
  pub xreadgroup_ok :
      (c : String) (n t : ℕ) (w : W)
      → streams.xreadgroup c n t w ≡ (ok (read c n w), after_read c n w)
  pub read_acked : (c : String) (n : ℕ) (w : W) → acked (after_read c n w) ≡ acked w
  pub after_ack : String → W → W
  pub xack_ok : (id : String) (w : W) → streams.xack id w ≡ (ok tt, after_ack id w)
  pub acked_ack : (id : String) (w : W) → acked (after_ack id w) ≡ id ∷ acked w

module _ {W H D N : Type 0} (streams : Streams W) (codec : Codec D N)
    (handler : Message D N → M H (Unit {0})) (law : IsGroup streams) where
  -- An acknowledgement if the handler returned.
  abbrev pub acked_if : {A : Type 0} → Result A → String → List String → List String
  acked_if (ok a) id ids = id ∷ ids
  acked_if (raise e) id ids = ids

  -- The handler on every message in turn, whatever it does with those before, and the identifiers of
  -- those for which it returned, the newest first.
  unfoldable pub handle_all : List (String × Dict String) → H → List String → List String × H
  handle_all [] h ids = (ids, h)
  handle_all (raw ∷ raws) h ids =
      let (a, h') = handler (message_of codec raw) h in handle_all raws h' (acked_if a raw.0 ids)

  unfoldable pub naps : List (String × Dict String) → List ℕ → List ℕ
  naps [] ns = 100 ∷ ns
  naps (raw ∷ raws) ns = ns

  process_message_lem :
      (raw : String × Dict String) (s : Consumer W H)
      → (w : W) × (process_message streams codec handler raw s ≡ (
        ok tt,
        record s { server = w; handled = (handler (message_of codec raw) s.handled).1 },
      ))
        × (law.acked w
            ≡ acked_if (handler (message_of codec raw) s.handled).0 raw.0 (law.acked s.server))
  unfolding process_message
  process_message_lem raw s = elim (Result-cases (handler (message_of codec raw) s.handled).0) [
    | inl (u, e) ↦ (
      law.after_ack raw.0 s.server,
      rw (e, law.xack_ok raw.0 s.server) refl,
      rw e (law.acked_ack raw.0 s.server),
    )
    | inr (x, e) ↦ (s.server, rw e refl, rw e refl)
  ]

  process_all_lem :
      (raws : List (String × Dict String)) (ids : List String) (s : Consumer W H)
      → law.acked s.server ≡ ids
      → (w : W) × (process_all streams codec handler raws s
          ≡ (ok tt, record s { server = w; handled = (handle_all raws s.handled ids).1 }))
        × (law.acked w ≡ (handle_all raws s.handled ids).0)
  unfolding process_all handle_all
  process_all_lem [] ids s e = (s.server, refl, e)
  process_all_lem (raw ∷ raws) ids s e =
      let (w, ran, same) = process_message_lem raw s in
      let (a, h') = handler (message_of codec raw) s.handled in
      let (v, rest, acks) =
        process_all_lem raws (acked_if a raw.0 ids) (record s { server = w; handled = h' })
          (same ∙ ap (acked_if a raw.0) e) in
      (v, rw ran rest, acks)

  pause_lem :
      (raws : List (String × Dict String)) (s : Consumer W H)
      → pause streams codec handler raws s ≡ (ok tt, record s { sleeps = naps raws s.sleeps })
  unfolding pause naps
  pause_lem [] s = refl
  pause_lem (raw ∷ raws) s = refl

  -- Over a server that answers, a round hands each message that it read to the handler, once and in order,
  -- whatever the handler did with those before, and acknowledges exactly those for which the handler
  -- returned: the others stay pending. It raises nothing, and sleeps if and only if there was
  -- no message.
  pub round_lem :
      (consumer_name : String) (batch_size : ℕ) (s : Consumer W H)
      → let raws = law.read consumer_name batch_size s.server in
        let (ids, h) = handle_all raws s.handled (law.acked s.server) in
        (w : W) × (round streams codec handler consumer_name batch_size s
          ≡ (ok tt, record { server = w; handled = h; sleeps = naps raws s.sleeps }))
        × (law.acked w ≡ ids)
  unfolding round
  round_lem c n s =
      let raws : List (String × Dict String) = law.read c n s.server in
      let s1 : Consumer W H = record s { server = law.after_read c n s.server } in
      let (w, ran, acks) =
        process_all_lem raws (law.acked s.server) s1 (law.read_acked c n s.server) in
      let s2 : Consumer W H = record s1 {
        server = w;
        handled = (handle_all raws s.handled (law.acked s.server)).1;
      } in
      (w, rw (law.xreadgroup_ok c n 2000 s.server, ran, pause_lem raws s2) refl, acks)
