-- ===== src/Cache/Manager/Refinement.antt =====
-- The cache manager against a plain map: what the two tiers together promise.
use sse_llm_streaming_servic.Base.{
  ℕ, ◌+◌, ◌≡◌, refl, sym, ap, ◌∙◌, String, List, [], ◌∷◌, true, false, Option, none, some, M, ok,
  ◌>>=◌, pure, arith, ite, string_discrete, if◌then◌else◌,
}
use mathlib.Core.Path.{fun_ext}
use sse_llm_streaming_servic.Base.Dict.{Dict, lookup}
use sse_llm_streaming_servic.Cache.L1.{L1Storage, get_keys}
use sse_llm_streaming_servic.Cache.L1
use sse_llm_streaming_servic.Cache.Strategy.Single.{get_lem, set_lem, delete_lem, stored, deleted}
use sse_llm_streaming_servic.Cache.Store.{Store, IsStore}
use sse_llm_streaming_servic.Cache.Strategy.{CacheSource, Tiers}
use sse_llm_streaming_servic.Cache.Strategy.Coherence.{IsCoherent, warm-IsCoherent}
use sse_llm_streaming_servic.Cache.Strategy.Batch.{
  contains, value_at, AllFrom, l2_batch_get_lem, batch_get_lem,
}
use sse_llm_streaming_servic.Cache.Manager.{
  CacheManager, record_get, ttl_or, warm_all, recent_keys, warm_from_keys, warm_popular_from_l2,
  get, set, delete, drop_sources, batch_get, warm_cache, warm_popular_keys,
}

pub data Call (V : Type 0) : Type 0 where
  gets : String → Call V
  sets : String → V → Option ℕ → Call V
  deletes : String → Call V
  batch_gets : List String → Call V
  warms : List String → Call V
  warms_popular : ℕ → Call V

pub data Answer (V : Type 0) : Type 0 where
  found : Option V → Answer V
  batch : (String → Option (Option V)) → Answer V
  done : Answer V

-- The abstract cache: a map.
abbrev pub put : {V : Type 0} → String → Option V → (String → Option V) → String → Option V
put k o f j = ite (string_discrete k j) o (f j)

module _ {V : Type 0} where
  unfoldable pub spec_step : Call V → (String → Option V) → Answer V × (String → Option V)
  spec_step (gets k) f = (found (f k), f)
  spec_step (sets k v ttl) f = (done, put k (some v) f)
  spec_step (deletes k) f = (done, put k none f)
  spec_step (batch_gets ks) f = (batch (λ j. if contains j ks then some (f j) else none), f)
  spec_step (warms ks) f = (done, f)
  spec_step (warms_popular n) f = (done, f)

  unfoldable pub spec_run :
      List (Call V) → (String → Option V) → List (Answer V) × (String → Option V)
  spec_run [] f = ([], f)
  spec_run (c ∷ cs) f = let (a, g) = spec_step c f in let (rest, h) = spec_run cs g in (a ∷ rest, h)

module _ {V W : Type 0} (s : Store V W) where
  -- A call of the manager, and what its caller sees; a value is stored in both tiers.
  unfoldable pub step : Call V → M (CacheManager V W) (Answer V)
  step (gets k) = get s k >>= λ o. pure (found o)
  step (sets k v ttl) = set s k v ttl false >>= λ _. pure done
  step (deletes k) = delete s k >>= λ _. pure done
  step (batch_gets ks) = batch_get s ks >>= λ d. pure (batch (λ j. lookup j d))
  step (warms ks) = warm_cache s ks >>= λ _. pure done
  step (warms_popular n) = warm_popular_keys s n >>= λ _. pure done

  unfoldable pub run : List (Call V) → M (CacheManager V W) (List (Answer V))
  run [] = pure []
  run (c ∷ cs) = step c >>= λ a. run cs >>= λ rest. pure (a ∷ rest)

module _ {V W : Type 0} (s : Store V W) (law : IsStore s) where
  open law use {content}

  -- An enabled cache whose second tier holds the map, and whose first tier agrees with it.
  pub record Represents (f : String → Option V) (c : CacheManager V W) : Type 0 where
    pub enabled : c.enabled ≡ true
    pub holds : content c.tiers.l2 ≡ f
    pub coherent : IsCoherent (content c.tiers.l2) c.tiers.l1

  abbrev Refines : Call V → (String → Option V) → CacheManager V W → Type 0
  Refines call f c =
      (d : CacheManager V W) × (step s call c ≡ (ok (spec_step call f).0, d))
      × Represents (spec_step call f).1 d

  drop_sources-value :
      (j : String) (r : Dict (Option V × CacheSource)) → lookup j (drop_sources r) ≡ value_at j r
  unfolding drop_sources lookup value_at
  drop_sources-value j [] = refl
  drop_sources-value j ((k, (v, src)) ∷ r) = ground (arith, drop_sources-value j r)

  warm_all-IsCoherent :
      (g : String → Option V) (d : Dict (Option V)) (n : ℕ) (l1 : L1Storage V)
      → AllFrom g d
      → IsCoherent g l1
      → IsCoherent g (warm_all d n l1).1
  unfolding warm_all
  warm_all-IsCoherent g [] n l1 a h = h
  warm_all-IsCoherent g ((k, none) ∷ d) n l1 a h = warm_all-IsCoherent g d n l1 a.1 h
  warm_all-IsCoherent g ((k, some v) ∷ d) n l1 a h =
      warm_all-IsCoherent g d (n + 1) (L1.set k v l1) a.1 (warm-IsCoherent g l1 k v (sym a.0) h)

  -- Warming reads the second tier only, and counts without failing.
  warm_from_keys_lem :
      (t : Tiers V W) (ks : List String)
      → IsCoherent (content t.l2) t.l1
      → (n : ℕ) × (l1 : L1Storage V) × (warm_from_keys s ks t ≡ (ok n, record t { l1 = l1 }))
        × IsCoherent (content t.l2) l1
  unfolding warm_from_keys
  warm_from_keys_lem t [] h = (0, t.l1, refl, h)
  warm_from_keys_lem t (k ∷ ks) h =
      let (d, run, from, asked) = l2_batch_get_lem s law t (k ∷ ks) in
      (
        (warm_all d 0 t.l1).0,
        (warm_all d 0 t.l1).1,
        rw run refl,
        warm_all-IsCoherent (content t.l2) d 0 t.l1 from h,
      )

  module _ (f : String → Option V) (c : CacheManager V W) (h : Represents f c) where
    -- A lookup reads the map.
    pub get_map :
        (k : String) → (d : CacheManager V W) × (get s k c ≡ (ok (f k), d)) × Represents f d
    unfolding get
    get_map k =
        let (src, l1, run, keep) = get_lem s law c.tiers k h.coherent in
        (
          record c { tiers = record c.tiers { l1 = l1 }; observer = record_get src c.observer },
          ground (arith, run, h.enabled, ap (λ g. g k) h.holds),
          record { enabled = h.enabled; holds = h.holds; coherent = keep },
        )

    get-Refines : (k : String) → Refines (gets k) f c
    unfolding step spec_step
    get-Refines k = let (d, run, keep) = get_map k in (d, rw run refl, keep)

    -- A store in both tiers updates it.
    pub set_map :
        (k : String) (v : V) (ttl : Option ℕ)
        → (d : CacheManager V W) × (set s k v ttl false c ≡ (ok tt, d))
          × Represents (put k (some v) f) d
    unfolding set
    set_map k v ttl =
        let time = ttl_or ttl c.default_ttl in
        let (run, keep) = set_lem s law c.tiers k v time h.coherent in
        (
          record c { tiers = stored s law c.tiers k v time },
          ground (arith, run, h.enabled),
          record {
            enabled = h.enabled;
            holds =
                fun_ext (λ j.
                  ground (arith, law.set_content j k v time c.tiers.l2, ap (λ g. g j) h.holds));
            coherent = keep;
          },
        )

    set-Refines : (k : String) (v : V) (ttl : Option ℕ) → Refines (sets k v ttl) f c
    unfolding step spec_step
    set-Refines k v ttl = let (d, run, keep) = set_map k v ttl in (d, rw run refl, keep)

    delete-Refines : (k : String) → Refines (deletes k) f c
    unfolding step spec_step delete
    delete-Refines k =
        let (run, keep) = delete_lem s law c.tiers k h.coherent in
        (
          record c { tiers = deleted s law c.tiers k },
          ground (arith, run),
          record {
            enabled = h.enabled;
            holds =
                fun_ext
                  (λ j. ground (arith, law.delete_content j k c.tiers.l2, ap (λ g. g j) h.holds));
            coherent = keep;
          },
        )

    batch_get-Refines : (ks : List String) → Refines (batch_gets ks) f c
    unfolding step spec_step
    batch_get-Refines ks =
        let (r, l1, run, keep, answers) = batch_get_lem s law c.tiers ks h.coherent in
        let d : CacheManager V W = record c { tiers = record c.tiers { l1 = l1 } } in
        let same : batch (λ j. lookup j (drop_sources r))
            ≡ batch (λ j. if contains j ks then some (f j) else none) =
          ap batch (
            fun_ext (λ j.
              drop_sources-value j r
              ∙ answers j
              ∙ ap (λ g. if contains j ks then some (g j) else none) h.holds)) in
        let ran : batch_get s ks c ≡ (ok (drop_sources r), d) =
          unfold batch_get in ground (arith, run, h.enabled) in
        (
          d,
          rw ran (λ i. (ok (same i), d)),
          record { enabled = h.enabled; holds = h.holds; coherent = keep },
        )

    warms-Refines : (ks : List String) → Refines (warms ks) f c
    unfolding step spec_step warm_cache
    warms-Refines ks =
        let (n, l1, run, keep) = warm_from_keys_lem c.tiers ks h.coherent in
        (
          record c { tiers = record c.tiers { l1 = l1 } },
          ground (arith, run),
          record { enabled = h.enabled; holds = h.holds; coherent = keep },
        )

    warms_popular-Refines : (n : ℕ) → Refines (warms_popular n) f c
    unfolding step spec_step warm_popular_keys warm_popular_from_l2
    warms_popular-Refines limit =
        let ks = recent_keys limit (get_keys c.tiers.l1) in
        let (n, l1, run, keep) = warm_from_keys_lem c.tiers ks h.coherent in
        (
          record c { tiers = record c.tiers { l1 = l1 } },
          ground (arith, run),
          record { enabled = h.enabled; holds = h.holds; coherent = keep },
        )

    -- A call answers as the plain map does, and leaves a cache that represents the next map.
    pub step-Refines : (call : Call V) → Refines call f c
    step-Refines (gets k) = get-Refines k
    step-Refines (sets k v ttl) = set-Refines k v ttl
    step-Refines (deletes k) = delete-Refines k
    step-Refines (batch_gets ks) = batch_get-Refines ks
    step-Refines (warms ks) = warms-Refines ks
    step-Refines (warms_popular n) = warms_popular-Refines n

  -- Over a server that answers, every sequence of lookups, stores, deletions, batch lookups and
  -- warmings succeeds, answers what a plain map answers, and leaves a cache that represents that map.
  pub run-Represents :
      (calls : List (Call V)) (f : String → Option V) (c : CacheManager V W)
      → Represents f c
      → (d : CacheManager V W) × (run s calls c ≡ (ok (spec_run calls f).0, d))
        × Represents (spec_run calls f).1 d
  unfolding run spec_run
  run-Represents [] f c h = (c, refl, h)
  run-Represents (call ∷ calls) f c h =
      let (d, here, hd) = step-Refines f c h call in
      let (e, there, he) = run-Represents calls (spec_step call f).1 d hd in
      (e, ground (arith, here, there), he)
