-- ===== src/Cache/Strategy/Single.antt =====
-- What a lookup, a store and a deletion do in the two tiers together.
use sse_llm_streaming_servic.Base.{ℕ, ◌≡◌, String, Option, ok, false, arith, inl, inr, Option-cases}
use sse_llm_streaming_servic.Base.Dict.{lookup}
use sse_llm_streaming_servic.Cache.L1.{L1Storage}
use sse_llm_streaming_servic.Cache.L1
use sse_llm_streaming_servic.Cache.L1.Invariant.{after_get, get-after_get}
use sse_llm_streaming_servic.Cache.Store.{Store, IsStore}
use sse_llm_streaming_servic.Cache.Strategy.{
  CacheSource, tier_l1, tier_l2, miss, Tiers, get, set, delete,
}
use sse_llm_streaming_servic.Cache.Strategy.Coherence.{
  IsCoherent, set-IsCoherent, delete-IsCoherent, warm-IsCoherent, after_get-IsCoherent,
}

module _ {V W : Type 0} (s : Store V W) (law : IsStore s) (t : Tiers V W) (k : String) where
  open law use {content}

  -- A lookup answers what the second tier holds, from whichever tier.
  pub get_lem :
      IsCoherent (content t.l2) t.l1
      → (src : CacheSource) × (c : L1Storage V) × (get s k t
          ≡ (ok (content t.l2 k, src), record t { l1 = c }))
        × IsCoherent (content t.l2) c
  unfolding get
  get_lem h = elim (Option-cases (lookup k t.l1.items)) [
    | inr (v, e) ↦ (
      tier_l1,
      after_get k t.l1,
      ground (arith, get-after_get k t.l1, h.agrees k v e),
      after_get-IsCoherent f t.l1 k h,
    )
    | inl e ↦ elim (Option-cases (f k)) [
      | inl q ↦ (
        miss,
        after_get k t.l1,
        ground (arith, get-after_get k t.l1, law.get_content k t.l2),
        after_get-IsCoherent f t.l1 k h,
      )
      | inr (v, q) ↦ (
        tier_l2,
        L1.set k v (after_get k t.l1),
        ground (arith, get-after_get k t.l1, law.get_content k t.l2),
        warm-IsCoherent f (after_get k t.l1) k v q (after_get-IsCoherent f t.l1 k h),
      )
    ]
  ]
    where
      f : String → Option V
      f = content t.l2

  abbrev pub stored : V → ℕ → Tiers V W
  stored v ttl = record t { l1 = L1.set k v t.l1; l2 = (s.set k v ttl t.l2).1 }

  pub set_lem :
      (v : V) (ttl : ℕ)
      → IsCoherent (content t.l2) t.l1
      → (set s k v ttl false t ≡ (ok tt, stored v ttl))
        × IsCoherent (content (stored v ttl).l2) (L1.set k v t.l1)
  unfolding set
  set_lem v ttl h = (
    ground (arith, law.set_ok k v ttl t.l2),
    set-IsCoherent (content t.l2) (content (stored v ttl).l2) t.l1 k v
        (λ j. law.set_content j k v ttl t.l2) h,
  )

  abbrev pub deleted : Tiers V W
  deleted = record t { l1 = (L1.delete k t.l1).1; l2 = (s.delete k t.l2).1 }

  pub delete_lem :
      IsCoherent (content t.l2) t.l1
      → (delete s k t ≡ (ok tt, deleted)) × IsCoherent (content deleted.l2) deleted.l1
  unfolding delete
  delete_lem h = (
    ground (arith, law.delete_ok k t.l2),
    delete-IsCoherent (content t.l2) (content deleted.l2) t.l1 k (λ j. law.delete_content j k t.l2)
        h,
  )
