-- ===== src/Tests/Caching.antt =====
-- Runs of the cache, and its theorems at them.
use sse_llm_streaming_servic.Base.{◌≡◌, refl, String, List, [], ◌∷◌, true, none, some, ok, arith}
use sse_llm_streaming_servic.Base.Dict.{lookup}
use sse_llm_streaming_servic.Cache.L1.{L1Storage, evict}
use sse_llm_streaming_servic.Cache.L1.Recency.{
  Use, reads, stores, run as use_all, history, latest, Tracks, run-Tracks,
}
use sse_llm_streaming_servic.Cache.Strategy.Coherence.{IsCoherent}
use sse_llm_streaming_servic.Cache.Manager.{CacheManager}
use sse_llm_streaming_servic.Cache.Manager.Refinement.{
  Call, sets, gets, deletes, batch_gets, warms, warms_popular, spec_run, run, Represents,
  run-Represents,
}
use sse_llm_streaming_servic.Tests.Servers.{Server, empty, write, store, store_laws}

abbrev pub no_entries : L1Storage String
no_entries = record { max_size = 2; items = [] }

abbrev uses : List (Use String)
uses = stores "a" "1" ∷ stores "b" "2" ∷ reads "a" ∷ stores "c" "3" ∷ []

no_entries-Tracks : Tracks no_entries 2 []
unfolding latest evict
no_entries-Tracks = record { capacity = refl; distinct = tt; window = refl }

run-Tracks_example : Tracks (use_all uses no_entries) 2 (history 2 uses [])
run-Tracks_example = run-Tracks uses no_entries-Tracks

-- The server knows "a".
abbrev server : Server String
server = write "a" (some "1") empty

abbrev pub manager : CacheManager String (Server String)
manager = record {
  tiers = record { l1 = no_entries; l2 = server };
  observer = record { hits_l1 = 0; hits_l2 = 0; misses = 0 };
  enabled = true;
  default_ttl = 3600;
  initialized = true;
}

pub no_entries-IsCoherent : (f : Server String) → IsCoherent f no_entries
unfolding lookup
no_entries-IsCoherent f = record {
  valid = record { distinct = tt; bounded = ground arith };
  agrees = λ k v e. cc e;
}

manager-Represents : Represents store store_laws server manager
manager-Represents = record {
  enabled = refl;
  holds = refl;
  coherent = no_entries-IsCoherent server;
}

abbrev calls : List (Call String)
calls =
    gets "a"
    ∷ sets "b" "2" none
    ∷ sets "c" "3" (some 60)
    ∷ batch_gets ("a" ∷ "b" ∷ "d" ∷ [])
    ∷ deletes "b"
    ∷ warms ("a" ∷ [])
    ∷ warms_popular 1
    ∷ gets "b"
    ∷ []

run-Represents_example :
    (d : CacheManager String (Server String)) × (run store calls manager
      ≡ (ok (spec_run calls server).0, d))
    × Represents store store_laws (spec_run calls server).1 d
run-Represents_example = run-Represents store store_laws calls server manager manager-Represents
