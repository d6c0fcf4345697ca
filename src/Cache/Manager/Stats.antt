-- ===== src/Cache/Manager/Stats.antt =====
-- The hit and miss counters, the cache-aside pattern, and the disabled cache.
use sse_llm_streaming_servic.Base.{
  ℕ, ◌+◌, ◌≡◌, refl, String, true, Option, none, some, M, Exn, ok, raise, arith, if◌then◌else◌,
}
use sse_llm_streaming_servic.Base.Dict.{lookup}
use sse_llm_streaming_servic.Cache.L1.Invariant.{get-after_get}
use sse_llm_streaming_servic.Cache.Store.{Store, IsStore}
use sse_llm_streaming_servic.Cache.Strategy.{CacheSource, tier_l1, tier_l2, miss, Tiers}
use sse_llm_streaming_servic.Cache.Strategy
use sse_llm_streaming_servic.Cache.Strategy.Single.{stored}
use sse_llm_streaming_servic.Cache.Manager.{
  CacheManager, record_get, total_requests, get, get_or_compute,
}
use sse_llm_streaming_servic.Cache.Manager.Refinement.{Represents, put, get_map, set_map}

module _ {V W : Type 0} (s : Store V W) where
  -- A lookup that returns counts as one request if the cache is enabled, and as none if not.
  pub get_counts :
      (k : String) (c : CacheManager V W) {o : Option V}
      → (get s k c).0 ≡ ok o
      → total_requests (get s k c).1.observer
        ≡ (if c.enabled then total_requests c.observer + 1 else total_requests c.observer)
  unfolding get total_requests record_get
  get_counts k c e = ground arith

  -- A lookup that misses the first tier and finds the server failing raises, and counts nothing.
  pub get_fails :
      (k : String) (c : CacheManager V W) (e : Exn)
      → c.enabled ≡ true
      → lookup k c.tiers.l1.items ≡ none
      → (s.get k c.tiers.l2).0 ≡ raise e
      → ((get s k c).0 ≡ raise e) × ((get s k c).1.observer ≡ c.observer)
  unfolding get Strategy.get
  get_fails k c e on absent down = ground (arith, get-after_get k c.tiers.l1)

module _ {V W A : Type 0} (s : Store V W) (law : IsStore s) (cached : V → A)
    (serialize : A → V) where
  module _ (k : String) (ttl : Option ℕ) (compute : M (CacheManager V W) A) (f : String → Option V)
      (c : CacheManager V W) (h : Represents s law f c) where
    -- A stored value is returned, nothing is computed, and the map stays as it is.
    pub get_or_compute_hit :
        (v : V)
        → f k ≡ some v
        → (d : CacheManager V W) × (get_or_compute s cached serialize k compute ttl c
            ≡ (ok (cached v), d))
          × Represents s law f d
    unfolding get_or_compute
    get_or_compute_hit v e =
        let (d, run, keep) = get_map s law f c h k in (d, rw (run, e) refl, keep)

    -- On a miss the computation runs on a cache that still represents the map, and its exception
    -- is passed on with the state it left.
    pub get_or_compute_raises :
        (e : Exn) (d : CacheManager V W)
        → f k ≡ none
        → compute (get s k c).1 ≡ (raise e, d)
        → Represents s law f (get s k c).1
          × (get_or_compute s cached serialize k compute ttl c ≡ (raise e, d))
    unfolding get_or_compute
    get_or_compute_raises e d absent raised =
        let (c', run, keep) = get_map s law f c h k in
        let raised' : compute c' ≡ (raise e, d) = rw run at raised in
        rw run (keep, rw (absent, raised') refl)

    -- On a miss the value that the computation returns is returned and stored under the key, over
    -- the map that the computation itself left.
    pub get_or_compute_stores :
        (a : A) (d : CacheManager V W) (g : String → Option V)
        → f k ≡ none
        → compute (get s k c).1 ≡ (ok a, d)
        → Represents s law g d
        → (d' : CacheManager V W) × (get_or_compute s cached serialize k compute ttl c ≡ (ok a, d'))
          × Represents s law (put k (some (serialize a)) g) d'
    unfolding get_or_compute
    get_or_compute_stores a d g absent computed hd =
        let (c', run, keep) = get_map s law f c h k in
        let computed' : compute c' ≡ (ok a, d) = rw run at computed in
        let (d', stored, keep') = set_map s law g d hd k (serialize a) ttl in
        (d', rw (run, absent, computed', stored) refl, keep')
