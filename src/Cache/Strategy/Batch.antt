-- ===== src/Cache/Strategy/Batch.antt =====
-- What a batch read answers, whatever the order of the keys, hits and evictions.
use sse_llm_streaming_servic.Base.{
  ◌≡◌, refl, sym, String, List, [], ◌∷◌, ◌++◌, Option, none, some, ok, arith, ite, string_discrete,
  inl, inr, Option-cases, M, ap, List-cases, Bool, true, false, if◌then◌else◌,
}
use sse_llm_streaming_servic.Base.Dict.{Dict, lookup, insert, lookup-insert}
use sse_llm_streaming_servic.Cache.L1.{L1Storage}
use sse_llm_streaming_servic.Cache.L1
use sse_llm_streaming_servic.Cache.L1.Invariant.{after_get, get-after_get}
use sse_llm_streaming_servic.Cache.Store.{Store, IsStore}
use sse_llm_streaming_servic.Cache.Strategy.{
  CacheSource, Tiers, Checked, check_key, check_l1, warm_results, fetch_all, l2_batch_get,
  batch_get,
}
use sse_llm_streaming_servic.Cache.Strategy.Coherence.{
  IsCoherent, warm-IsCoherent, after_get-IsCoherent,
}

-- `key in keys`
unfoldable pub contains : String → List String → Bool
contains j [] = false
contains j (k ∷ ks) = ite (string_discrete k j) true (contains j ks)

contains-append :
    (j k : String) (ks : List String)
    → contains j (ks ++ k ∷ []) ≡ ite (string_discrete k j) true (contains j ks)
unfolding contains
contains-append j k [] = refl
contains-append j k (i ∷ ks) = ground (arith, contains-append j k ks)

module _ {V : Type 0} where
  -- The value without its source: `{k: v[0] for k, v in results.items()}` read at a key.
  unfoldable pub value_at : String → Dict (Option V × CacheSource) → Option (Option V)
  value_at j r = elim (lookup j r) [ none ↦ none | some e ↦ some e.0 ]

  value_at-insert :
      (j k : String) (v : Option V) (src : CacheSource) (r : Dict (Option V × CacheSource))
      → value_at j (insert k (v, src) r) ≡ ite (string_discrete k j) (some v) (value_at j r)
  unfolding value_at
  value_at-insert j k v src r = ground (arith, lookup-insert j k (v, src) r)

  check_l1-cons :
      (k : String) (keys : List String) (r : Checked V) (c : L1Storage V)
      → check_l1 (k ∷ keys) r c ≡ check_l1 keys (check_key k (lookup k c.items) r) (after_get k c)
  unfolding check_l1
  check_l1-cons k keys r c = rw (get-after_get, check_l1)

  module _ (f : String → Option V) (j : String) where
    -- What the batch will answer at `j`, once the pending keys are fetched.
    answer : Checked V → Option (Option V)
    answer r = if contains j r.l2_keys then some (f j) else value_at j r.results

    answer-check_key :
        (k : String) (o : Option V) (r : Checked V)
        → ((v : V) → o ≡ some v → f k ≡ some v)
        → answer (check_key k o r) ≡ ite (string_discrete k j) (some (f j)) (answer r)
    unfolding answer check_key
    answer-check_key k none r h = ground (arith, contains-append j k r.l2_keys)
    answer-check_key k (some v) r h =
        ground (arith, h v refl, value_at-insert j k (some v) CacheSource.tier_l1 r.results)

    check_l1-answer :
        (keys : List String) (r : Checked V) (c : L1Storage V)
        → IsCoherent f c
        → answer (check_l1 keys r c).0 ≡ (if contains j keys then some (f j) else answer r)
    unfolding check_l1 contains
    check_l1-answer [] r c h = refl
    check_l1-answer (k ∷ keys) r c h = rw check_l1-cons (
        ground (
          arith,
          check_l1-answer keys (check_key k (lookup k c.items) r) (after_get k c)
              (after_get-IsCoherent f c k h),
          answer-check_key k (lookup k c.items) r (h.agrees k),
        ))

  check_l1-IsCoherent :
      (f : String → Option V) (keys : List String) (r : Checked V) (c : L1Storage V)
      → IsCoherent f c
      → IsCoherent f (check_l1 keys r c).1
  unfolding check_l1
  check_l1-IsCoherent f [] r c h = h
  check_l1-IsCoherent f (k ∷ keys) r c h = rw check_l1-cons (
      check_l1-IsCoherent f keys (check_key k (lookup k c.items) r) (after_get k c)
        (after_get-IsCoherent f c k h))

  -- Answers of the second tier that are all what it holds.
  abbrev pub AllFrom : (String → Option V) → Dict (Option V) → Type 0
  AllFrom f [] = Unit {0}
  AllFrom f ((k, v) ∷ d) = (v ≡ f k) × AllFrom f d

  insert-AllFrom :
      (f : String → Option V) (k : String) (v : Option V) (d : Dict (Option V))
      → v ≡ f k
      → AllFrom f d
      → AllFrom f (insert k v d)
  unfolding insert
  insert-AllFrom f k v [] e h = (e, tt)
  insert-AllFrom f k v ((j, w) ∷ d) e h = ground (arith, insert-AllFrom f k v d)

  warm_results-value :
      (f : String → Option V) (j : String) (d : Dict (Option V)) (r : Dict (Option V × CacheSource))
      (c : L1Storage V)
      → AllFrom f d
      → value_at j (warm_results d r c).0
        ≡ elim (lookup j d) [ none ↦ value_at j r | some _ ↦ some (f j) ]
  unfolding warm_results lookup
  warm_results-value f j [] r c h = refl
  warm_results-value f j ((k, none) ∷ d) r c h = ground (
    arith,
    warm_results-value f j d (insert k (none, CacheSource.miss) r) c,
    value_at-insert j k none CacheSource.miss r,
  )
  warm_results-value f j ((k, some v) ∷ d) r c h = ground (
    arith,
    warm_results-value f j d (insert k (some v, CacheSource.tier_l2) r) (L1.set k v c),
    value_at-insert j k (some v) CacheSource.tier_l2 r,
  )

  warm_results-IsCoherent :
      (f : String → Option V) (d : Dict (Option V)) (r : Dict (Option V × CacheSource))
      (c : L1Storage V)
      → AllFrom f d
      → IsCoherent f c
      → IsCoherent f (warm_results d r c).1
  unfolding warm_results
  warm_results-IsCoherent f [] r c a h = h
  warm_results-IsCoherent f ((k, none) ∷ d) r c a h = warm_results-IsCoherent f d _ c a.1 h
  warm_results-IsCoherent f ((k, some v) ∷ d) r c a h =
      warm_results-IsCoherent f d _ (L1.set k v c) a.1 (warm-IsCoherent f c k v (sym a.0) h)

module _ {V W : Type 0} (f : String → Option V) (w : W) (fetch : String → M W (Option V)) where
  -- Fetching key by key asks for every key, and nothing else.
  fetch_all_lem :
      (keys : List String) (d : Dict (Option V))
      → ((k : String) → fetch k w ≡ (ok (f k), w))
      → AllFrom f d
      → (d' : Dict (Option V)) × (fetch_all fetch keys d w ≡ (ok d', w))
        × AllFrom f d'
        × ((j : String) → lookup j d' ≡ (if contains j keys then some (f j) else lookup j d))
  unfolding fetch_all contains
  fetch_all_lem [] d e h = (d, refl, h, λ j. refl)
  fetch_all_lem (k ∷ keys) d e h =
      let (d', run, from, found) =
        fetch_all_lem keys (insert k (f k) d) e (insert-AllFrom f k (f k) d refl h) in
      (d', rw (e k) run, from, λ j. ground (arith, found j, lookup-insert j k (f k) d))

module _ {V W : Type 0} (s : Store V W) (law : IsStore s) (t : Tiers V W) where
  open law use {content}

  pub l2_batch_get_lem :
      (keys : List String)
      → (d : Dict (Option V)) × (l2_batch_get s keys t.l2 ≡ (ok d, t.l2))
        × AllFrom (content t.l2) d
        × ((j : String) → lookup j d ≡ (if contains j keys then some (content t.l2 j) else none))
  unfolding l2_batch_get lookup
  l2_batch_get_lem keys = elim (Option-cases s.pipeline_mgr) [
    | inl e ↦
        rw (e, l2_batch_get)
          (fetch_all_lem (content t.l2) t.l2 s.get keys [] (λ k. law.get_content k t.l2) tt)
    | inr (f, e) ↦
        rw (e, l2_batch_get)
          (fetch_all_lem (content t.l2) t.l2 f keys [] (λ k. law.pipeline_content f k t.l2 e) tt)
  ]

  -- Over a coherent first tier and a server that answers, a batch read succeeds, answers every key that was asked for with what the second tier holds and
  -- no other key, and leaves the second tier as it was and the first one coherent.
  pub batch_get_lem :
      (keys : List String)
      → IsCoherent (content t.l2) t.l1
      → (r : Dict (Option V × CacheSource)) × (c : L1Storage V) × (batch_get s keys t
          ≡ (ok r, record t { l1 = c }))
        × IsCoherent (content t.l2) c
        × ((j : String) → value_at j r ≡ (if contains j keys then some (content t.l2 j) else none))
  unfolding batch_get answer value_at contains lookup
  batch_get_lem keys h = elim (List-cases pending) [
    | inl e ↦ (
      checked.0.results,
      checked.1,
      rw e refl,
      coherent,
      λ j. ground (arith, answered j, ap (contains j) e, nothing_pending j),
    )
    | inr (k, ks, e) ↦
        let (d, run, from, found) = l2_batch_get_lem pending in
        (
          (warm_results d checked.0.results checked.1).0,
          (warm_results d checked.0.results checked.1).1,
          ground (arith, run),
          warm_results-IsCoherent f d checked.0.results checked.1 from coherent,
          λ j. ground (
            arith,
            answered j,
            found j,
            warm_results-value f j d checked.0.results checked.1 from,
          ),
        )
  ]
    where
      f : String → Option V
      f = content t.l2

      start : Checked V
      start = record { results = []; l2_keys = [] }

      checked : Checked V × L1Storage V
      checked = check_l1 keys start t.l1

      pending : List String
      pending = checked.0.l2_keys

      coherent : IsCoherent f checked.1
      coherent = check_l1-IsCoherent f keys start t.l1 h

      answered :
          (j : String)
          → answer f j checked.0 ≡ (if contains j keys then some (f j) else answer f j start)
      answered j = check_l1-answer f j keys start t.l1 h

      nothing_pending : (j : String) → contains j [] ≡ false
      nothing_pending j = refl
