-- ===== src/Relay/Delivery.antt =====
-- What the client receives, from what the worker publishes.
use Prim.Native.String.{◌++◌ as str_append, len}
use text.Mathlib.Text.{starts_with}
use text.Mathlib.TextPositions.{starts_with-append}
use sse_llm_streaming_servic.Base.{
  ◌≤◌, ◌<◌, ◌≡◌, ◌≢◌, String, List, [], ◌∷◌, ◌++◌, true, false, none, some, arith, All, ite,
  string_discrete, Option-cases, Bool-cases, inl, inr, refl, sym, ap, ◌∙◌, if_neg,
}
use sse_llm_streaming_servic.Relay.{
  StreamConfig, Orjson, HeartbeatManager, Poll, record_activity, ping_message, process_message,
  message_loop, should_send_ping, format_timeout_error, format_error_event, remove_all,
}

-- The messages of the polls, in order.
unfoldable pub arrivals : List Poll → List String
arrivals [] = []
arrivals (poll ∷ polls) = elim poll.message [ none ↦ arrivals polls | some t ↦ t ∷ arrivals polls ]

-- The events that are not pings.
unfoldable pub without_pings : List String → List String
without_pings [] = []
without_pings (x ∷ xs) =
    ite (string_discrete x ping_message) (without_pings xs) (x ∷ without_pings xs)

-- A text that is no signal, no batch and no ping.
pub record IsPlain (t : String) : Type 0 where
  pub not_done : t ≢ "SIGNAL:DONE"
  pub not_error : starts_with t "SIGNAL:ERROR:" ≡ false
  pub not_batch : starts_with t "BATCH:" ≡ false
  pub not_ping : t ≢ ping_message

pub apart_by_prefix : (s t u : String) → starts_with u s ≡ false → str_append s t ≢ u
apart_by_prefix s t u other e =
    cc (sym (starts_with-append s t) ∙ ap (λ x. starts_with x s) e ∙ other)

module _ (json : Orjson) where
  process_message-plain : (t : String) → IsPlain t → process_message json t ≡ (t ∷ [], false)
  unfolding process_message
  process_message-plain t plain = ground (arith, plain.not_done, plain.not_error, plain.not_batch)

  pub process_message-done : process_message json "SIGNAL:DONE" ≡ ([], true)
  unfolding process_message
  process_message-done = ground arith

  -- The event of an error that the worker published, and the end of the stream.
  pub process_message-error :
      (text : String)
      → let message = str_append "SIGNAL:ERROR:" text in
        process_message json message
        ≡ (format_error_event json (remove_all (len message) message "SIGNAL:ERROR:") ∷ [], true)
  unfolding process_message
  process_message-error text =
      let other : ◌≢◌ {A = String} (str_append "SIGNAL:ERROR:" text) "SIGNAL:DONE" =
        apart_by_prefix "SIGNAL:ERROR:" text "SIGNAL:DONE" refl in
      rw
        (
          if_neg (string_discrete (str_append "SIGNAL:ERROR:" text) "SIGNAL:DONE") other,
          starts_with-append "SIGNAL:ERROR:" text,
        )
        refl

  pub format_error_event-without_pings :
      (text : String)
      → without_pings (format_error_event json text ∷ []) ≡ format_error_event json text ∷ []
  unfolding without_pings format_error_event
  format_error_event-without_pings text =
      let other : format_error_event json text ≢ ping_message =
        apart_by_prefix "event: error\ndata: " (str_append (json.dumps_error text) "\n\n")
          ping_message refl in
      if_neg (string_discrete (format_error_event json text) ping_message) other _ _

module _ (json : Orjson) (c : StreamConfig) where
  -- When no poll is late and the messages are the plain texts of a stream and then one that ends the
  -- loop, whatever follows and however the polls fall, the client receives these texts and the
  -- events of that last message in order, with nothing but pings between them, and the loop ends.
  pub message_loop-relays :
      (h : HeartbeatManager) (polls : List Poll) (texts : List String) (last : String)
      (final rest : List String)
      → process_message json last ≡ (final, true)
      → All (λ (poll : Poll). poll.elapsed ≤ c.timeout) polls
      → All IsPlain texts
      → arrivals polls ≡ texts ++ last ∷ rest
      → (without_pings (message_loop json c h polls).0 ≡ texts ++ without_pings final)
        × ((message_loop json c h polls).1 ≡ true)
  unfolding message_loop arrivals without_pings
  message_loop-relays h [] [] last final rest stops timely plain arrived = cc arrived
  message_loop-relays h [] (t ∷ texts) last final rest stops timely plain arrived = cc arrived
  message_loop-relays h (poll ∷ polls) [] last final rest stops (in_time, timely) plain arrived =
      elim (Option-cases poll.message) [
        | inl e ↦
            let same : arrivals polls ≡ last ∷ rest = rw e at arrived in
            ground (
              arith,
              message_loop-relays h polls [] last final rest stops timely plain same,
              message_loop-relays (record_activity poll.now h) polls [] last final rest stops timely
                  plain same,
            )
        | inr (t, e) ↦
            let now_there : t ∷ arrivals polls ≡ last ∷ rest = rw e at arrived in
            let is_last : t ≡ last = cc now_there in
            let answer : process_message json t ≡ (final, true) = rw is_last stops in
            ground (arith, answer)
      ]
  message_loop-relays h (poll ∷ polls) (text ∷ texts) last final rest stops (in_time, timely)
        (one, plain) arrived =
      elim (Option-cases poll.message) [
        | inl e ↦
            let same : arrivals polls ≡ text ∷ texts ++ last ∷ rest = rw e at arrived in
            ground (
              arith,
              message_loop-relays h polls (text ∷ texts) last final rest stops timely (one, plain)
                  same,
              message_loop-relays (record_activity poll.now h) polls (text ∷ texts) last final rest
                  stops timely (one, plain) same,
            )
        | inr (t, e) ↦
            let now_there : t ∷ arrivals polls ≡ text ∷ texts ++ last ∷ rest = rw e at arrived in
            let is_text : t ≡ text = cc now_there in
            let others : arrivals polls ≡ texts ++ last ∷ rest = cc now_there in
            let answer : process_message json t ≡ (text ∷ [], false) =
              rw is_text (process_message-plain json text one) in
            ground (
              arith,
              answer,
              one.not_ping,
              message_loop-relays (record_activity poll.now h) polls texts last final rest stops
                  timely plain others,
            )
      ]

  -- When the time runs out after polls in time that brought plain texts or nothing, the client has received
  -- these texts in order, with nothing but pings between them, and then gets the timeout error; the
  -- loop ends there.
  pub message_loop-timeout :
      (h : HeartbeatManager) (before after : List Poll) (late : Poll)
      → All (λ (poll : Poll). poll.elapsed ≤ c.timeout) before
      → All IsPlain (arrivals before)
      → c.timeout < late.elapsed
      → (sent : List String) × ((message_loop json c h (before ++ late ∷ after)).0
          ≡ sent ++ format_timeout_error json ∷ [])
        × (without_pings sent ≡ arrivals before)
        × ((message_loop json c h (before ++ late ∷ after)).1 ≡ true)
  unfolding message_loop arrivals without_pings
  message_loop-timeout h [] after late timely plain is_late = ([], ground arith, refl, ground arith)
  message_loop-timeout h (poll ∷ before) after late (in_time, timely) plain is_late =
      let h1 : HeartbeatManager = record_activity poll.now h in
      elim (Option-cases poll.message) [
        | inl e ↦
            let others : All IsPlain (arrivals before) = rw e at plain in
            elim (Bool-cases (should_send_ping poll.now h)) [
              | inl b ↦
                  let (sent, events, texts, ended) =
                    message_loop-timeout h1 before after late timely others is_late in
                  (ping_message ∷ sent, ground arith, ground arith, ground arith)
              | inr b ↦
                  let (sent, events, texts, ended) =
                    message_loop-timeout h before after late timely others is_late in
                  (sent, ground arith, ground arith, ground arith)
            ]
        | inr (t, e) ↦
            let (one, others) : All IsPlain (t ∷ arrivals before) = rw e at plain in
            let answer = process_message-plain json t one in
            let (sent, events, texts, ended) =
              message_loop-timeout h1 before after late timely others is_late in
            (t ∷ sent, ground arith, ground (arith, one.not_ping), ground arith)
      ]
