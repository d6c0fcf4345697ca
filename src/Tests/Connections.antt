-- ===== src/Tests/Connections.antt =====
-- The pool and the rate limiter at concrete calls.
use sse_llm_streaming_servic.Base.{
  ◌≡◌, ◌≢◌, refl, String, List, [], ◌∷◌, true, false, some, ok, arith, string_discrete, min,
}
use sse_llm_streaming_servic.Base.Int.{pos}
use sse_llm_streaming_servic.Base.Dict.{lookup}
use sse_llm_streaming_servic.Redis.{Value, number}
use sse_llm_streaming_servic.Pool.{
  ConnectionPoolManager, World, local_user_count, get_user_count, acquire_connection,
  release_connection, user_key, key_total,
}
use sse_llm_streaming_servic.Pool.Held.{Counts, count, after_verdict}
use sse_llm_streaming_servic.Pool.Shared.{release_connection-get_user_count}
use sse_llm_streaming_servic.RateLimit.{LocalRateLimitCache}
use sse_llm_streaming_servic.RateLimit.Window.{
  Call, Counted, allowed_of, calls_of, allowed_of-window,
}
use sse_llm_streaming_servic.Tests.Servers.{Server, empty, write, redis, redis_laws}

-- A pool of three connections, two for a user.
abbrev pub three : ConnectionPoolManager
three = record {
  max_connections = 3;
  max_per_user = 2;
  connected = false;
  local_total_count = 0;
  local_user_counts = [];
  local_connections = [];
  degraded_threshold = 2;
  critical_threshold = 2;
}

abbrev pub world : World (Server Value)
world = record { pool = three; server = empty }

pub three-Counts : Counts three []
unfolding local_user_count lookup count
three-Counts = record {
  local = refl;
  total = refl;
  by_user = λ u. refl;
  within = omega arith;
  within_user = λ u. omega arith;
}

-- Ann acquires twice, the second time for another thread, and releases once.
abbrev first : World (Server Value)
first = (acquire_connection redis "ann" "t1" world).1

abbrev held_first : List String
held_first = after_verdict (acquire_connection redis "ann" "t1" world).0 "ann" []

-- A shared server on which three connections are held, two of them by Ann.
abbrev shared : World (Server Value)
shared = record {
  pool = record three { connected = true };
  server =
      write key_total (some (number (pos 3)))
        (write (user_key "ann") (some (number (pos 2))) empty);
}

ann_named : ◌≢◌ {A = String} "ann" ""
ann_named e = cc e

release_connection-get_user_count_example :
    ((release_connection redis "t1" (some "ann") shared).0 ≡ ok tt)
    × ((get_user_count redis "ann" (release_connection redis "t1" (some "ann") shared).1).0
        ≡ ok (pos 0))
unfolding string_discrete user_key
release_connection-get_user_count_example =
    release_connection-get_user_count redis redis_laws "ann" "t1" shared (pos 3) (pos 2) refl
      ann_named refl refl

-- The limiter in Ann's window, which starts at 100, with one request counted.
abbrev limiter : LocalRateLimitCache
limiter = record {
  cache =
      ("ann", record { count = 1; window_start = 100; last_redis_sync = 0; redis_count = pos 0 })
      ∷ [];
  redis_client = false;
}

limiter-Counted : Counted limiter "ann" 100 1
unfolding lookup string_discrete
limiter-Counted = record { alone = refl; last = 0; found = refl }

abbrev requests : List Call
requests = ("ann", 110) ∷ ("bob", 111) ∷ ("ann", 112) ∷ ("ann", 160) ∷ []

allowed_of-window_example :
    allowed_of redis 3 60 "ann" requests limiter empty ≡ min (calls_of "ann" requests) 2
allowed_of-window_example =
    allowed_of-window redis 3 60 "ann" 100 1 requests limiter empty (omega arith)
      (omega arith, (omega arith, (omega arith, (omega arith, tt)))) limiter-Counted
