-- ===== src/Tests/Subscribing.antt =====
-- Pub/sub on a list of the objects that listen, and the theorems at it.
use sse_llm_streaming_servic.Base.{
  ℕ, ◌+◌, ◌≤◌, ◌≡◌, refl, String, List, [], ◌∷◌, Option, none, some, M, Exn, ok, raise, queue_error,
  ◌==◌, arith, if◌then◌else◌,
}
use sse_llm_streaming_servic.Request.{Stored}
use sse_llm_streaming_servic.Relay.{StreamConfig, Orjson, HeartbeatManager}
use sse_llm_streaming_servic.Worker.{channel}
use sse_llm_streaming_servic.Client.{PubSub, State, on_server, subscribe, get_message, unsubscribe}
use sse_llm_streaming_servic.Client.Subscriptions.{IsPubSub, subscribe-subscribe}

abbrev pub Server : Type 0
Server = List (ℕ × String)

unfoldable pub listening : Server → ℕ → Option String
listening [] j = none
listening ((p, k) ∷ w) j = if p == j then some k else listening w j

unfoldable pub next : Server → ℕ
next [] = 0
next ((p, k) ∷ w) = p + next w + 1

unfoldable pub without : ℕ → Server → Server
without p [] = []
without p ((q, k) ∷ w) = if q == p then without p w else (q, k) ∷ without p w

silent : (w : Server) (j : ℕ) → next w ≤ j → listening w j ≡ none
unfolding next listening
silent [] j le = refl
silent ((p, k) ∷ w) j le = ground (arith, silent w j)

listening-without :
    (p : ℕ) (w : Server) (j : ℕ)
    → listening (without p w) j ≡ (if p == j then none else listening w j)
unfolding listening without
listening-without p [] j = ground arith
listening-without p ((q, k) ∷ w) j = ground (arith, listening-without p w j)

abbrev pub redis : PubSub Server
redis = record {
  pubsub = λ w. (ok (next w), w);
  subscribe = λ p k w. (ok tt, (p, k) ∷ w);
  get_message = λ p t w. (ok (listening w p), w);
  unsubscribe = λ p k w. (ok tt, without p w);
  close = λ p w. (ok tt, without p w);
}

abbrev laws : IsPubSub redis
unfolding listening
laws = record {
  listening = listening;
  next = next;
  opened = λ w. w;
  joined = λ p k w. (p, k) ∷ w;
  left = λ p k w. without p w;
  closed = λ p w. without p w;
  pubsub_ok = λ w. refl;
  subscribe_ok = λ p k w. refl;
  unsubscribe_ok = λ p k w. refl;
  close_ok = λ p w. refl;
  next_silent = λ w. silent w (next w) (omega arith);
  opened_listening = λ w j. refl;
  joined_listening = λ p k w j. refl;
  left_listening = λ p k w j. listening-without p w j;
  closed_listening = λ p w j. listening-without p w j;
}

-- The queue is full.
abbrev pub refuses : Stored → M ℕ String
refuses stored n = (raise queue_error, n)

abbrev pub client : State Server ℕ
client = record {
  subscriber = record { pubsub = none; channel_name = none };
  server = [];
  queue = 0;
  attempts = 0;
  emitted = [];
}

abbrev pub json : Orjson
json = record { loads = λ t. raise queue_error; dumps_error = λ t. t }

abbrev pub config : StreamConfig
config = record { timeout = 30000; ping_interval = 15000; min_poll_interval = 100 }

abbrev pub heartbeat : HeartbeatManager
heartbeat = record { ping_interval = 15000; last_activity_time = 0 }

abbrev pub describe : Exn → String
describe e = "queue"

subscribe-subscribe_example :
    let s2 = (subscribe redis "2" (subscribe redis "1" client).1).1 in
    let p2 = next (subscribe redis "1" client).1.server in
    (get_message redis 100 s2 ≡ on_server (redis.get_message p2 100) s2)
    × (listening s2.server p2 ≡ some (channel "2"))
    × (listening (unsubscribe redis (unsubscribe redis s2).1).1.server (next [])
        ≡ some (channel "1"))
unfolding next laws listening
subscribe-subscribe_example = subscribe-subscribe redis laws "1" "2" 100 client
