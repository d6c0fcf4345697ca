-- ===== src/Tests/Serving.antt =====
-- The streaming service with a pool of three connections, and its theorems at it.
use sse_llm_streaming_servic.Base.{ℕ, String, [], true, false}
use sse_llm_streaming_servic.Base.Int.{pos}
use sse_llm_streaming_servic.Redis.{Value}
use sse_llm_streaming_servic.Streaming.{State, Failover, Call, generate_stream}
use sse_llm_streaming_servic.Streaming.Outcomes.{Outcome, generate_stream-Outcome}
use sse_llm_streaming_servic.Tests.Servers.{Server, redis}
use sse_llm_streaming_servic.Tests.Connections.{world}
use sse_llm_streaming_servic.Tests.Streaming.{environment, start, asks}
use sse_llm_streaming_servic.Tests.Subscribing as Subscribing

abbrev service : State (Server Value) (Server String) (Server Value) Subscribing.Server ℕ
service = record {
  pool = world;
  orchestrator = start;
  client = Subscribing.client;
  active = pos 0;
  reports = [];
  sent = [];
}

abbrev failover : Failover Subscribing.Server ℕ
failover = record {
  enabled = true;
  redis = Subscribing.redis;
  produce = Subscribing.refuses;
  json = Subscribing.json;
  describe = Subscribing.describe;
  config = Subscribing.config;
  heartbeat = Subscribing.heartbeat;
}

abbrev call : Call
call = record {
  request = asks "b";
  user_id = "ann";
  payload = [];
  request_id = "r";
  now = 5;
  polls = [];
  abandoned = true;
  closes = λ sent. false;
}

generate_stream-Outcome_example :
    Outcome [] (generate_stream redis environment failover call service)
generate_stream-Outcome_example = generate_stream-Outcome redis environment failover call service
