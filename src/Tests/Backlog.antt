-- ===== src/Tests/Backlog.antt =====
-- A queue that finds room after two waits, a round of a consumer, and a payload that comes back.
use sse_llm_streaming_servic.Base.{
  ℕ, zero, suc, ◌+◌, ◌-◌, ◌≡◌, refl, String, List, [], ◌∷◌, true, false, none, some, M, Result, ok,
  raise, queue_full, retry_error, value_error, if◌then◌else◌, leb,
}
use sse_llm_streaming_servic.Base.Dict.{Dict, lookup}
use sse_llm_streaming_servic.Serializer.{
  Value, string, document, Codec, IsCodec, opens, serialize, deserialize, stamped, AreVerbatim,
  IsVerbatim, deserialize-serialize,
}
use sse_llm_streaming_servic.RedisQueue.{
  Streams, attempt, success, depth, Queue, Environment, produce, Message, Consumer, round,
}
use sse_llm_streaming_servic.RedisQueue.Producing.{IsStreams, IsRetry, settled, produce_lem}
use sse_llm_streaming_servic.RedisQueue.Consuming.{IsGroup, handle_all, naps, round_lem}

-- A stream by its length, with what is acknowledged.
pub record Server : Type 0 where
  pub count : ℕ
  pub acked : List String

abbrev streams : Streams Server
streams = record {
  xgroup_create = λ w. (ok tt, w);
  xlen = λ w. (ok w.count, w);
  xadd = λ d n w. (ok "7-0", record w { count = w.count + 1 });
  xreadgroup = λ c n t w. (ok (("1-0", ("timestamp", "now") ∷ []) ∷ ("2-0", []) ∷ []), w);
  xack = λ id w. (ok tt, record w { acked = id ∷ w.acked });
}

abbrev streams_laws : IsStreams streams
streams_laws = record {
  length_of = λ w. w.count;
  added = λ d n w. record w { count = w.count + 1 };
  entry_id = λ d n w. "7-0";
  xlen_ok = λ w. refl;
  xadd_ok = λ d n w. refl;
}

-- Others take one message off the queue in every wait.
abbrev drained : Server → Server
drained w = record w { count = w.count - 1 }

abbrev stop : Result String × Queue Server → Result String × Queue Server
stop (raise queue_full, s) = (raise retry_error, s)
stop (a, s) = (a, s)

abbrev again : Result String × Queue Server → M (Queue Server) String → Result String × Queue Server
again (raise queue_full, s) k = k (record s { server = drained s.server })
again (a, s) k = (a, s)

abbrev retry : ℕ → M (Queue Server) String → M (Queue Server) String
retry zero m s = stop (m s)
retry (suc zero) m s = stop (m s)
retry (suc (suc n)) m s = again (m s) (retry (suc n) m)

retry_returns :
    (n : ℕ) (m : M (Queue Server) String) (s s' : Queue Server) (a : String)
    → m s ≡ (ok a, s')
    → retry (suc n) m s ≡ (ok a, s')
retry_returns zero m s s' a e = rw e refl
retry_returns (suc n) m s s' a e = rw e refl

abbrev retry_laws : IsRetry retry
retry_laws = record {
  others = drained;
  returns = retry_returns;
  gives_up = λ m s s' e. rw e refl;
  goes_on = λ n m s s' e. rw e refl;
}

abbrev codec : Codec (Unit {0}) (Unit {0})
codec = record {
  dumps = λ d. "{}";
  dumps_bool = λ b. if b then "true" else "false";
  loads = λ v. some tt;
  str = λ n. "0";
}

codec_laws : IsCodec codec
unfolding opens
codec_laws = record { loads_dumps = λ d. refl; dumps_opens = λ d. refl }

abbrev environment : Environment Server (Unit {0}) (Unit {0})
environment = record {
  streams = streams;
  busy_group = λ e. true;
  retry = retry;
  codec = codec;
  load_shedder = none;
  max_depth = 2;
  threshold = 800000;
  max_retries = 3;
}

abbrev queue : Queue Server
queue = record { initialized = true; metrics = []; server = record { count = 3; acked = [] } }

abbrev payload : Dict (Value (Unit {0}) (Unit {0}))
payload = ("query", string "hi") ∷ ("extra", document tt) ∷ []

produce_lem_example :
    let s1 = record queue { metrics = depth 3 ∷ attempt ∷ [] } in
    let found = settled environment streams_laws retry_laws 2 queue.server in
    (found.0 ≡ true
      → (produce environment "now" payload none queue ≡ (
        ok "7-0",
        record s1 {
          metrics = success ∷ s1.metrics;
          server = record found.1 { count = found.1.count + 1 };
        },
      ))
        × (leb 2 found.1.count ≡ false))
    × (found.0 ≡ false
        → produce environment "now" payload none queue
          ≡ (raise retry_error, record s1 { server = found.1 }))
produce_lem_example =
    produce_lem environment streams_laws retry_laws "now" payload none 2 queue refl refl refl

found_room :
    settled environment streams_laws retry_laws 2 queue.server
    ≡ (true, record { count = 1; acked = [] })
unfolding settled
found_room = refl

-- The handler fails on a message without a timestamp, and counts.
abbrev handler : Message (Unit {0}) (Unit {0}) → M ℕ (Unit {0})
handler message n = elim (lookup "timestamp" message.payload) [
  | none ↦ (raise value_error, n + 1)
  | some t ↦ (ok tt, n + 1)
]

abbrev group_laws : IsGroup streams
group_laws = record {
  acked = λ w. w.acked;
  read = λ c n w. ("1-0", ("timestamp", "now") ∷ []) ∷ ("2-0", []) ∷ [];
  after_read = λ c n w. w;
  xreadgroup_ok = λ c n t w. refl;
  read_acked = λ c n w. refl;
  after_ack = λ id w. record w { acked = id ∷ w.acked };
  xack_ok = λ id w. refl;
  acked_ack = λ id w. refl;
}

abbrev consumer : Consumer Server ℕ
consumer = record { server = record { count = 2; acked = [] }; handled = 0; sleeps = [] }

round_lem_example :
    let raws = group_laws.read "c" 10 consumer.server in
    let (ids, h) = handle_all streams codec handler group_laws raws 0 [] in
    (w : Server) × (round streams codec handler "c" 10 consumer ≡ (
      ok tt,
      record { server = w; handled = h; sleeps = naps streams codec handler group_laws raws [] },
    ))
    × (w.acked ≡ ids)
round_lem_example = round_lem streams codec handler group_laws "c" 10 consumer

verbatim : AreVerbatim payload
unfolding AreVerbatim IsVerbatim opens
verbatim = (refl, (tt, tt))

now_plain : opens "now" ≡ false
unfolding opens
now_plain = refl

deserialize-serialize_example :
    deserialize codec (serialize codec "now" payload) ≡ stamped codec "now" payload
deserialize-serialize_example =
    deserialize-serialize codec codec_laws "now" payload now_plain verbatim
