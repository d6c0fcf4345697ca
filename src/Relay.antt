-- ===== src/Relay.antt =====
-- The client's side of the queue, src/core/resilience/queue_request_handler.py: the loop that
-- turns the messages of the result channel into events. The clock and the messages come as a list
-- of polls; `orjson` is a parameter. Times are in milliseconds.
pub mod Delivery
pub mod EndToEnd
use Prim.Native.String.{◌++◌ as str_append, len, slice, find}
use text.Mathlib.Text.{starts_with, find?}
use sse_llm_streaming_servic.Base.{
  ℕ, zero, suc, ◌+◌, ◌-◌, min, max, String, List, [], ◌∷◌, ◌++◌, Bool, true, false, Option, none,
  some, Result, ok, raise, ltb, if◌then◌else◌, ite, string_discrete,
}

pub record StreamConfig : Type 0 where
  pub timeout : ℕ
  pub ping_interval : ℕ
  pub min_poll_interval : ℕ

-- `orjson.loads` of a list of texts, and `orjson.dumps({"error": text})`.
pub record Orjson : Type 0 where
  pub loads : String → Result (List String)
  pub dumps_error : String → String

-- `s.replace(t, "")`, with fuel: a round takes one occurrence out, so the length is enough.
unfoldable pub remove_all : ℕ → String → String → String
remove_all zero s t = s
remove_all (suc fuel) s t =
    let rest = remove_all fuel (slice s (find s t + len t) (len s)) t in
    elim (find? s t) [ none ↦ s | some i ↦ str_append (slice s 0 i) rest ]

-- `HeartbeatManager`; a method that reads the clock takes the time.
pub record HeartbeatManager : Type 0 where
  pub ping_interval : ℕ
  pub last_activity_time : ℕ

abbrev pub record_activity : ℕ → HeartbeatManager → HeartbeatManager
record_activity now h = record h { last_activity_time = now }

-- `now - last_activity_time > ping_interval`
unfoldable pub should_send_ping : ℕ → HeartbeatManager → Bool
should_send_ping now h = ltb (h.last_activity_time + h.ping_interval) now

abbrev pub ping_message : String
ping_message = ": ping\n\n"

-- A difference below 0 counts as 0; `calculate_poll_timeout` raises it to the poll interval anyway.
unfoldable pub time_until_next_ping : ℕ → HeartbeatManager → ℕ
time_until_next_ping now h = h.ping_interval - (now - h.last_activity_time)

unfoldable pub calculate_poll_timeout : StreamConfig → ℕ → ℕ → HeartbeatManager → ℕ
calculate_poll_timeout c now elapsed h =
    max c.min_poll_interval (min (time_until_next_ping now h) (c.timeout - elapsed))

-- One round of the loop: the time since the start, what `get_message` returned, and the time then.
pub record Poll : Type 0 where
  pub elapsed : ℕ
  pub message : Option String
  pub now : ℕ

module _ (json : Orjson) where
  unfoldable pub format_error_event : String → String
  format_error_event message =
      str_append "event: error\ndata: " (str_append (json.dumps_error message) "\n\n")

  abbrev pub format_timeout_error : String
  format_timeout_error = format_error_event "Queue timeout - server busy"

  -- A batch that does not parse is dropped.
  unfoldable pub process_batch : String → List String
  process_batch data_text = elim (json.loads (remove_all (len data_text) data_text "BATCH:")) [
    | ok chunks ↦ chunks
    | raise e ↦ []
  ]

  -- The events of a message, and whether the stream stops.
  unfoldable pub process_message : String → List String × Bool
  process_message data_text =
      ite (string_discrete data_text "SIGNAL:DONE") ([], true)
        (if starts_with data_text "SIGNAL:ERROR:"
          then (
            format_error_event (remove_all (len data_text) data_text "SIGNAL:ERROR:") ∷ [],
            true,
          )
          else (if starts_with data_text "BATCH:"
              then (process_batch data_text, false)
              else (data_text ∷ [], false)))

  -- The events of `_message_loop` over the polls, and whether it has ended.
  unfoldable pub message_loop : StreamConfig → HeartbeatManager → List Poll → List String × Bool
  message_loop c h [] = ([], false)
  message_loop c h (poll ∷ polls) =
      let active = message_loop c (record_activity poll.now h) polls in
      let quiet = message_loop c h polls in
      if ltb c.timeout poll.elapsed then (format_timeout_error ∷ [], true) else elim poll.message [
        | some data_text ↦
            let (events, should_stop) = process_message data_text in
            if should_stop then (events, true) else (events ++ active.0, active.1)
        | none ↦ if should_send_ping poll.now h then (ping_message ∷ active.0, active.1) else quiet
      ]
