-- ===== src/Tests/Client.antt =====
-- The client at the messages of a concrete request.
use sse_llm_streaming_servic.Base.{
  ◌≡◌, ◌≤◌, refl, sym, String, List, [], ◌∷◌, ◌++◌, true, none, some, ok, arith, string_discrete,
  All,
}
use sse_llm_streaming_servic.Request.{from_dict-to_dict}
use sse_llm_streaming_servic.Worker.{process}
use sse_llm_streaming_servic.Worker.Retries.{published, ending, complaint, process-actions}
use sse_llm_streaming_servic.Relay.{
  StreamConfig, Orjson, HeartbeatManager, Poll, message_loop, format_timeout_error,
}
use sse_llm_streaming_servic.Relay.Delivery.{arrivals, without_pings, IsPlain, message_loop-timeout}
use sse_llm_streaming_servic.Relay.EndToEnd.{transcript, texts, notice, process-message_loop}
use sse_llm_streaming_servic.Tests.Servers.{redis}
use sse_llm_streaming_servic.Tests.Connections.{three-Counts}
use sse_llm_streaming_servic.Tests.Queue.{config, request, message, working, idle, works, granted}

abbrev json : Orjson
json = record { loads = λ t. ok []; dumps_error = λ t. t }

abbrev stream_config : StreamConfig
stream_config = record { timeout = 30000; ping_interval = 15000; min_poll_interval = 100 }

abbrev heartbeat : HeartbeatManager
heartbeat = record { ping_interval = 15000; last_activity_time = 0 }

abbrev quiet_poll : Poll
quiet_poll = record { elapsed = 10; message = none; now = 16000 }

abbrev poll : String → Poll
poll t = record { elapsed = 20; message = some t; now = 16100 }

-- A ping, the two events of the stream, the done signal, and what follows it.
abbrev polls : List Poll
polls =
    quiet_poll
    ∷ poll "event: chunk\n\n"
    ∷ poll "event: complete\n\n"
    ∷ poll "SIGNAL:DONE"
    ∷ poll (complaint redis working config works)
    ∷ []

chunk-IsPlain : IsPlain "event: chunk\n\n"
chunk-IsPlain = record {
  not_done = λ e. cc e;
  not_error = refl;
  not_batch = refl;
  not_ping = λ e. cc e;
}

complete-IsPlain : IsPlain "event: complete\n\n"
complete-IsPlain = record {
  not_done = λ e. cc e;
  not_error = refl;
  not_batch = refl;
  not_ping = λ e. cc e;
}

in_time : All (λ (p : Poll). p.elapsed ≤ 30000) polls
in_time = (omega arith, (omega arith, (omega arith, (omega arith, (omega arith, tt)))))

abbrev late_poll : Poll
late_poll = record { elapsed = 30001; message = none; now = 46001 }

abbrev early : List Poll
early = quiet_poll ∷ poll "event: chunk\n\n" ∷ []

message_loop-timeout_example :
    (sent : List String) × ((message_loop json stream_config heartbeat
        (early ++ late_poll ∷ poll "late" ∷ [])).0
      ≡ sent ++ format_timeout_error json ∷ [])
    × (without_pings sent ≡ arrivals early)
    × ((message_loop json stream_config heartbeat (early ++ late_poll ∷ poll "late" ∷ [])).1 ≡ true)
unfolding arrivals
message_loop-timeout_example =
    message_loop-timeout json stream_config heartbeat early (poll "late" ∷ []) late_poll
      (omega arith, (omega arith, tt)) (chunk-IsPlain, tt) (omega arith)

sent :
    transcript "queue:results:q1" (process redis working config 1500 message idle).1.actions
    ≡ "event: chunk\n\n"
      ∷ "event: complete\n\n"
      ∷ "SIGNAL:DONE"
      ∷ complaint redis working config works
      ∷ []
unfolding transcript published string_discrete ending
sent =
    let run =
      process-actions redis working config works 1500 message request idle []
        (from_dict-to_dict request 1500) (omega arith) three-Counts granted refl in
    rw run.1 refl

process-message_loop_example :
    (without_pings (message_loop json stream_config heartbeat polls).0
      ≡ "event: chunk\n\n" ∷ "event: complete\n\n" ∷ [])
    × ((message_loop json stream_config heartbeat polls).1 ≡ true)
unfolding arrivals transcript texts ending notice
process-message_loop_example =
    process-message_loop redis working config works json stream_config heartbeat polls 1500 message
      request idle [] (from_dict-to_dict request 1500) (omega arith) three-Counts granted
      (λ e. cc e) (λ e. cc e) refl (sym sent) in_time (chunk-IsPlain, (complete-IsPlain, tt))
