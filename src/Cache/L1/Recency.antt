-- ===== src/Cache/L1/Recency.antt =====
-- Which keys the LRU tier keeps: the eviction order, against a history that forgets nothing.
use sse_llm_streaming_servic.Base.{
  ℕ, ◌-◌, ◌≤◌, ◌≡◌, refl, String, List, [], ◌∷◌, Bool-cases, ltb, suc, none, some, arith, drop,
  length, length-append, inl, inr, ap, Option-cases, ite, string_discrete,
}
use sse_llm_streaming_servic.Base.Dict.{Dict, lookup, remove, Distinct, length-remove}
use sse_llm_streaming_servic.Cache.L1.{L1Storage, evict, get, set}
use sse_llm_streaming_servic.Cache.L1.Invariant.{
  touch, touch-Distinct, set-touch, after_get, get-after_get, evict_fits, length-touch,
  length-evict,
}

pub data Use {ℓ} (V : Type ℓ) : Type ℓ where
  reads : String → Use V
  stores : String → V → Use V

module _ {ℓ} {V : Type ℓ} where
  unfoldable pub run : List (Use V) → L1Storage V → L1Storage V
  run [] c = c
  run (reads k ∷ us) c = run us (get k c).1
  run (stores k v ∷ us) c = run us (set k v c)

  -- The last `n` entries.
  unfoldable pub latest : ℕ → Dict V → Dict V
  latest n d = drop (length d - n) d

  -- The history holds every key ever stored, most recently used last. A read is a use if the key
  -- is among the last `cap` entries.
  unfoldable pub note : ℕ → Dict V → Use V → Dict V
  note cap h (reads k) = elim (lookup k (latest cap h)) [ none ↦ h | some v ↦ touch k v h ]
  note cap h (stores k v) = touch k v h

  unfoldable pub history : ℕ → List (Use V) → Dict V → Dict V
  history cap [] h = h
  history cap (u ∷ us) h = history cap us (note cap h u)

  evict-latest : (n : ℕ) (d : Dict V) → evict n d ≡ latest n d
  unfolding evict latest
  evict-latest n [] = let no_more : 0 - n ≡ 0 = omega arith in rw no_more refl
  evict-latest n (e ∷ d) = elim (Bool-cases (ltb n (length (e ∷ d)))) [
    | inl b ↦
        let one_more : length (e ∷ d) - n ≡ suc (length d - n) = ground arith in
        rw (b, one_more) (evict-latest n d)
    | inr b ↦ let fits : length (e ∷ d) - n ≡ 0 = ground arith in rw (b, fits) refl
  ]

  touch-cons :
      (k : String) (v : V) (j : String) (w : V) (d : Dict V)
      → touch k v ((j, w) ∷ d) ≡ ite (string_discrete j k) (touch k v d) ((j, w) ∷ touch k v d)
  unfolding touch remove
  touch-cons k v j w d = ground arith

  length-touch_ge : (k : String) (v : V) (d : Dict V) → Distinct d → length d ≤ length (touch k v d)
  unfolding touch
  length-touch_ge k v d h =
      omega (arith, length-append (remove k d) ((k, v) ∷ []), length-remove k d h)

  -- To make a key the newest and keep `n`, the last `n` entries are all that matter.
  evict-touch-evict :
      (n : ℕ) (k : String) (v : V) (d : Dict V)
      → Distinct d
      → evict n (touch k v (evict n d)) ≡ evict n (touch k v d)
  unfolding evict
  evict-touch-evict n k v [] h = refl
  evict-touch-evict n k v ((j, w) ∷ d) h =
      ground (arith, evict-touch-evict n k v d, touch-cons k v j w d, length-touch_ge k v d)

  evict-touch-latest :
      (n : ℕ) (k : String) (v : V) (d : Dict V)
      → Distinct d
      → evict n (touch k v (latest n d)) ≡ latest n (touch k v d)
  evict-touch-latest n k v d h =
      rw (← evict-latest n d, ← evict-latest n (touch k v d)) (evict-touch-evict n k v d h)

  length-latest : (n : ℕ) (d : Dict V) → length (latest n d) ≤ n
  length-latest n d = rw (← evict-latest n d) (length-evict n d)

  -- What a cache that started empty holds after a history.
  pub record Tracks (c : L1Storage V) (cap : ℕ) (h : Dict V) : Type ℓ where
    pub capacity : c.max_size ≡ cap
    pub distinct : Distinct h
    pub window : c.items ≡ latest cap h

  Tracks-set :
      {c : L1Storage V} {cap : ℕ} {h : Dict V} (k : String) (v : V)
      → Tracks c cap h
      → Tracks (set k v c) cap (touch k v h)
  Tracks-set {c} {cap} {h} k v t = rw set-touch (record {
    capacity = t.capacity;
    distinct = touch-Distinct k v h t.distinct;
    window = rw (t.capacity, t.window) (evict-touch-latest cap k v h t.distinct);
  })

  Tracks-get :
      {c : L1Storage V} {cap : ℕ} {h : Dict V} (k : String)
      → Tracks c cap h
      → Tracks (get k c).1 cap (note cap h (reads k))
  unfolding note after_get
  Tracks-get {c} {cap} {h} k t = rw get-after_get (elim (Option-cases (lookup k (latest cap h))) [
    | inl e ↦ record {
      capacity = ground (arith, ap (lookup k) t.window);
      distinct = ground arith;
      window = ground (arith, ap (lookup k) t.window);
    }
    | inr (w, e) ↦
        let fits : length (touch k w (latest cap h)) ≤ cap =
          omega (arith, length-touch k w w (latest cap h) e, length-latest cap h) in
        record {
          capacity = ground (arith, ap (lookup k) t.window);
          distinct = ground (arith, touch-Distinct k w h t.distinct);
          window = ground (
            arith,
            ap (lookup k) t.window,
            evict_fits cap (touch k w (latest cap h)) fits,
            evict-touch-latest cap k w h t.distinct,
          );
        }
  ])

  -- A tier that holds the `max_size` most recently used entries of a history, in the order of their
  -- last use, still does after every sequence of reads and stores, each noted in the history.
  pub run-Tracks :
      (us : List (Use V)) {c : L1Storage V} {cap : ℕ} {h : Dict V}
      → Tracks c cap h
      → Tracks (run us c) cap (history cap us h)
  unfolding run history note
  run-Tracks [] t = t
  run-Tracks (reads k ∷ us) t = run-Tracks us (Tracks-get k t)
  run-Tracks (stores k v ∷ us) t = run-Tracks us (Tracks-set k v t)
