-- ===== src/Tests/Queue.antt =====
-- The worker and the client at a concrete request.
use sse_llm_streaming_servic.Base.{
  ◌+◌, ◌*◌, min, ◌≡◌, ◌≢◌, refl, String, List, [], ◌∷◌, true, false, none, some, ok, raise,
  redis_error, user_connection_limit, arith, string_discrete,
}
use sse_llm_streaming_servic.Base.Dict.{lookup}
use sse_llm_streaming_servic.Redis.{Value}
use sse_llm_streaming_servic.Request.{QueuedStreamingRequest, pending, to_dict}
use sse_llm_streaming_servic.Pool.{local_user_count}
use sse_llm_streaming_servic.Pool.Held.{Counts, count, verdict}
use sse_llm_streaming_servic.Worker.{
  State, Action, publish, acknowledge, produce, sleep, Environment, WorkerConfig, QueueMessage,
  yields, finished, process, process_with_connection, calculate_backoff_delay,
}
use sse_llm_streaming_servic.Worker.Settling.{Settles}
use sse_llm_streaming_servic.Worker.Acks.{process-Settles}
use sse_llm_streaming_servic.Worker.Leaks.{refused-local_total_count, granted-local_user_count}
use sse_llm_streaming_servic.Worker.Retries.{calculate_backoff_delay-doubles}
use sse_llm_streaming_servic.Tests.Servers.{Server, redis}
use sse_llm_streaming_servic.Tests.Connections.{world, three, three-Counts}

abbrev pub config : WorkerConfig
config = record { max_retries = 5; timeout = 30000; base_delay_ms = 100; max_backoff_ms = 5000 }

abbrev pub request : QueuedStreamingRequest
request = record {
  request_id = "q1";
  user_id = "ann";
  thread_id = "t1";
  payload = ("query", "hello") ∷ [];
  enqueue_time = 1000;
  retry_count = 1;
  status = pending;
}

abbrev pub message : QueueMessage
message = record { id = "m1"; payload = to_dict request }

-- An environment where every action succeeds, and one where Redis refuses to publish.
abbrev pub working : Environment
working = record {
  outcome = λ actions a. none;
  stopped = λ actions. false;
  stream = λ query model provider user_id.
      yields "event: chunk\n\n" (yields "event: complete\n\n" finished);
  describe = λ e. "text";
}

abbrev mute : Environment
mute = record working {
  outcome = λ actions a. elim a [
    | publish k t ↦ some redis_error
    | acknowledge id ↦ none
    | produce q ↦ none
    | sleep t ↦ none
  ];
}

abbrev pub idle : State (Server Value)
idle = record { shared = world; actions = [] }

process-Settles_example :
    Settles "m1" []
      (process redis mute config 1500 message idle).0
      (process redis mute config 1500 message idle).1.actions
process-Settles_example = process-Settles redis mute config 1500 message idle

pub works : (actions : List Action) (a : Action) → working.outcome actions a ≡ none
works actions a = refl

pub granted : verdict three "ann" [] ≡ ok true
unfolding verdict count
granted = refl

calculate_backoff_delay-doubles_example :
    (calculate_backoff_delay config 0 ≡ min config.base_delay_ms 5000)
    × (calculate_backoff_delay config 4 ≡ min (2 * calculate_backoff_delay config 3) 5000)
calculate_backoff_delay-doubles_example = calculate_backoff_delay-doubles config 3

thread_named : ◌≢◌ {A = String} "t1" ""
thread_named e = cc e

thread_apart : ◌≢◌ {A = String} "t1" "ann"
thread_apart e = cc e

granted-local_user_count_example :
    ((process_with_connection redis working config request idle).1.shared.pool.local_total_count
      ≡ 0)
    × (local_user_count
          (process_with_connection redis working config request idle).1.shared.pool
          "ann"
        ≡ count "ann" [] + 1)
granted-local_user_count_example =
    granted-local_user_count redis working config request idle [] three-Counts granted thread_named
      thread_apart

-- A pool that Ann has filled to her limit.
abbrev ann_twice : List String
ann_twice = "ann" ∷ "ann" ∷ []

abbrev busy : State (Server Value)
busy = record {
  shared = record world {
    pool = record three { local_total_count = 2; local_user_counts = ("ann", 2) ∷ [] };
  };
  actions = [];
}

busy-Counts : Counts busy.shared.pool ann_twice
unfolding local_user_count lookup count
busy-Counts = record {
  local = refl;
  total = refl;
  by_user = λ u. ground arith;
  within = omega arith;
  within_user = λ u. ground arith;
}

refused : verdict busy.shared.pool "ann" ann_twice ≡ raise user_connection_limit
unfolding verdict count string_discrete
refused = refl

refused-local_total_count_example :
    ((process_with_connection redis working config request busy).0 ≡ raise user_connection_limit)
    × ((process_with_connection redis working config request busy).1.shared.pool.local_total_count
        ≡ 1)
refused-local_total_count_example =
    refused-local_total_count redis working config request busy ann_twice user_connection_limit
      busy-Counts refused
