-- ===== src/Cache/Manager.antt =====
-- `CacheObserver`, `CacheWarmer` and `CacheManager` of src/infrastructure/cache/cache_manager.py.
-- Logging and stage tracking leave the state alone and are not modelled.
pub mod Refinement
pub mod Stats
use Prim.Native.String.{◌++◌ as str_append}
use sse_llm_streaming_servic.Base.{
  ℕ, suc, ◌+◌, ◌-◌, String, List, [], ◌∷◌, Bool, true, false, Option, none, some, M, Result, ok,
  then_with, ◌>>=◌, ◌>>◌, pure, ltb, ◌==◌, if◌then◌else◌, length, drop, map,
}
use sse_llm_streaming_servic.Base.Dict.{Dict, insert}
use sse_llm_streaming_servic.Cache.L1.{L1Storage, get_keys}
use sse_llm_streaming_servic.Cache.L1
use sse_llm_streaming_servic.Cache.Store.{Store}
use sse_llm_streaming_servic.Cache.Strategy.{
  CacheSource, tier_l1, tier_l2, miss, Tiers, on_l2, l2_batch_get,
}
use sse_llm_streaming_servic.Cache.Strategy

-- The counters of `CacheObserver`.
pub record CacheObserver : Type 0 where
  pub hits_l1 : ℕ
  pub hits_l2 : ℕ
  pub misses : ℕ

-- `record_operation("get", source, …)`; the other operations are only logged.
unfoldable pub record_get : CacheSource → CacheObserver → CacheObserver
record_get tier_l1 o = record o { hits_l1 = o.hits_l1 + 1 }
record_get tier_l2 o = record o { hits_l2 = o.hits_l2 + 1 }
record_get miss o = record o { misses = o.misses + 1 }

-- `total` of `get_stats`.
unfoldable pub total_requests : CacheObserver → ℕ
total_requests o = o.hits_l1 + o.hits_l2 + o.misses

pub record CacheManager (V W : Type 0) : Type 0 where
  pub tiers : Tiers V W
  pub observer : CacheObserver
  pub enabled : Bool
  pub default_ttl : ℕ
  pub initialized : Bool

-- `ttl or self._default_ttl`: a time of 0 counts as none.
unfoldable pub ttl_or : Option ℕ → ℕ → ℕ
ttl_or none default_ttl = default_ttl
ttl_or (some ttl) default_ttl = if ttl == 0 then default_ttl else ttl

-- `l1_keys[-limit:] if len(l1_keys) > limit else l1_keys`; `[-0:]` is the whole list.
unfoldable pub recent_keys : ℕ → List String → List String
recent_keys limit ks =
    if ltb limit (length ks) then if limit == 0 then ks else drop (length ks - limit) ks else ks

module _ {V : Type 0} where
  -- The loop of `warm_from_keys`: the count, and the first tier.
  unfoldable pub warm_all : Dict (Option V) → ℕ → L1Storage V → ℕ × L1Storage V
  warm_all [] warmed c = (warmed, c)
  warm_all ((key, none) ∷ d) warmed c = warm_all d warmed c
  warm_all ((key, some v) ∷ d) warmed c = warm_all d (warmed + 1) (L1.set key v c)

  -- `{k: v[0] for k, v in results.items()}`
  unfoldable pub drop_sources : Dict (Option V × CacheSource) → Dict (Option V)
  drop_sources [] = []
  drop_sources ((k, (v, source)) ∷ r) = (k, v) ∷ drop_sources r

  -- `{k: None for k in keys}`
  unfoldable pub all_none : List String → Dict (Option V) → Dict (Option V)
  all_none [] d = d
  all_none (k ∷ ks) d = all_none ks (insert k none d)

-- `":".join(texts)`
unfoldable pub join : List String → String
join [] = ""
join (x ∷ []) = x
join (x ∷ y ∷ xs) = str_append x (str_append ":" (join (y ∷ xs)))

-- `generate_cache_key` of texts; `hexdigest` is that of MD5.
unfoldable pub generate_cache_key : (String → String) → String → List String → String
generate_cache_key hexdigest prefix args =
    str_append "cache:response"
      (str_append ":" (str_append prefix (str_append ":" (hexdigest (join args)))))

module _ {V W : Type 0} where
  -- A computation of the strategy or the warmer inside the manager.
  abbrev pub on_tiers : {A : Type 0} → M (Tiers V W) A → M (CacheManager V W) A
  on_tiers m c = let (a, t) = m c.tiers in (a, record c { tiers = t })

module _ {V W : Type 0} (s : Store V W) where
  -- `CacheWarmer.warm_from_keys`; with no keys there is nothing to fetch.
  unfoldable pub warm_from_keys : List String → M (Tiers V W) ℕ
  warm_from_keys [] t = (ok 0, t)
  warm_from_keys (k ∷ ks) t =
      then_with (on_l2 (l2_batch_get s (k ∷ ks)) t)
        λ results u. let (warmed, c) = warm_all results 0 u.l1 in (ok warmed, record u { l1 = c })

  -- `CacheWarmer.warm_popular_from_l2`
  unfoldable pub warm_popular_from_l2 : ℕ → M (Tiers V W) ℕ
  warm_popular_from_l2 limit t = warm_from_keys (recent_keys limit (get_keys t.l1)) t

  -- `record_operation` after a lookup, and `return value`.
  abbrev observe : Option V × CacheSource → M (CacheManager V W) (Option V)
  observe r d = (ok r.0, record d { observer = record_get r.1 d.observer })

  unfoldable pub get : String → M (CacheManager V W) (Option V)
  get key c =
      if c.enabled then then_with (on_tiers (Strategy.get s key) c) observe else (ok none, c)

  unfoldable pub set : String → V → Option ℕ → Bool → M (CacheManager V W) (Unit {0})
  set key value ttl l1_only c =
      if c.enabled
      then on_tiers (Strategy.set s key value (ttl_or ttl c.default_ttl) l1_only) c
      else (ok tt, c)

  unfoldable pub delete : String → M (CacheManager V W) (Unit {0})
  delete key = on_tiers (Strategy.delete s key)

  unfoldable pub batch_get : List String → M (CacheManager V W) (Dict (Option V))
  batch_get keys c =
      if c.enabled
      then then_with (on_tiers (Strategy.batch_get s keys) c) (λ r. pure (drop_sources r))
      else (ok (all_none keys []), c)

  unfoldable pub warm_cache : List String → M (CacheManager V W) ℕ
  warm_cache keys = on_tiers (warm_from_keys keys)

  unfoldable pub warm_popular_keys : ℕ → M (CacheManager V W) ℕ
  warm_popular_keys limit = on_tiers (warm_popular_from_l2 limit)

  -- `shutdown` clears the first tier only.
  unfoldable pub shutdown : M (CacheManager V W) (Unit {0})
  shutdown c =
      (ok tt, record c { tiers = record c.tiers { l1 = L1.clear c.tiers.l1 }; initialized = false })

  -- `get_or_compute`: `compute` runs on the manager's state, since it may itself use the cache;
  -- `serialize` is the string of the computed value, itself if it is one already.
  unfoldable pub get_or_compute :
      {A : Type 0}
      → (V → A)
      → (A → V)
      → String
      → M (CacheManager V W) A
      → Option ℕ
      → M (CacheManager V W) A
  get_or_compute cached serialize key compute ttl = get key >>= λ found. elim found [
    | some v ↦ pure (cached v)
    | none ↦ compute >>= λ value. set key (serialize value) ttl false >> pure value
  ]
