-- ===== src/Cache/Strategy.antt =====
-- `L2Storage` and `CacheStrategy` of src/infrastructure/cache/cache_manager.py: the two tiers.
pub mod Coherence
pub mod Single
pub mod Batch
use sse_llm_streaming_servic.Base.{
  ℕ, String, List, [], ◌∷◌, ◌++◌, Bool, Option, none, some, M, Result, ok, then_with, ◌>>=◌, ◌>>◌,
  pure, if◌then◌else◌,
}
use sse_llm_streaming_servic.Base.Dict.{Dict, insert}
use sse_llm_streaming_servic.Cache.L1.{L1Storage}
use sse_llm_streaming_servic.Cache.L1
use sse_llm_streaming_servic.Cache.Store.{Store}

pub data CacheSource : Type 0 where
  tier_l1 tier_l2 miss : CacheSource

pub record Tiers (V W : Type 0) : Type 0 where
  pub l1 : L1Storage V
  pub l2 : W

module _ {V W : Type 0} where
  -- A command to the second tier.
  abbrev pub on_l2 : {A : Type 0} → M W A → M (Tiers V W) A
  on_l2 m t = let (a, w) = m t.l2 in (a, record t { l2 = w })

module _ {V W : Type 0} where
  -- The loop of `batch_get`, through the pipeline or without it.
  unfoldable pub fetch_all :
      (String → M W (Option V)) → List String → Dict (Option V) → M W (Dict (Option V))
  fetch_all fetch [] results = pure results
  fetch_all fetch (key ∷ keys) results = do
    value ← fetch key
    fetch_all fetch keys (insert key value results)

module _ {V W : Type 0} (s : Store V W) where
  -- `L2Storage.batch_get`
  unfoldable pub l2_batch_get : List String → M W (Dict (Option V))
  unfolding fetch_all
  l2_batch_get keys = elim s.pipeline_mgr [
    | none ↦ fetch_all s.get keys []
    | some execute_get ↦ fetch_all execute_get keys []
  ]

  -- The second half of `CacheStrategy.get`: the first tier has missed.
  get_l2 : String → M (Tiers V W) (Option V × CacheSource)
  get_l2 key t = then_with (on_l2 (s.get key) t) λ value u. elim value [
    | none ↦ (ok (none, miss), u)
    | some v ↦ (ok (some v, tier_l2), record u { l1 = L1.set key v u.l1 })
  ]

  -- `CacheStrategy.get`
  unfoldable pub get : String → M (Tiers V W) (Option V × CacheSource)
  unfolding get_l2
  get key t =
      let (value, c) = L1.get key t.l1 in
      let u : Tiers V W = record t { l1 = c } in
      elim value [ none ↦ get_l2 key u | some v ↦ (ok (some v, tier_l1), u) ]

  -- `CacheStrategy.set`
  unfoldable pub set : String → V → ℕ → Bool → M (Tiers V W) (Unit {0})
  set key value ttl l1_only t =
      let u : Tiers V W = record t { l1 = L1.set key value t.l1 } in
      if l1_only then (ok tt, u) else on_l2 (s.set key value ttl) u

  -- `CacheStrategy.delete`
  unfoldable pub delete : String → M (Tiers V W) (Unit {0})
  delete key t = on_l2 (s.delete key) (record t { l1 = (L1.delete key t.l1).1 })

  abbrev clear_l1 : Tiers V W → Tiers V W
  clear_l1 t = record t { l1 = L1.clear t.l1 }

-- What a batch answers so far, and the keys that the first tier missed.
pub record Checked (V : Type 0) : Type 0 where
  pub results : Dict (Option V × CacheSource)
  pub l2_keys : List String

module _ {V : Type 0} where
  -- One round of phase 1: what the first tier answered at a key.
  unfoldable pub check_key : String → Option V → Checked V → Checked V
  check_key key none r = record r { l2_keys = r.l2_keys ++ key ∷ [] }
  check_key key (some v) r = record r { results = insert key (some v, tier_l1) r.results }

  -- Phase 1 of `batch_get`: the first tier, for every key.
  unfoldable pub check_l1 : List String → Checked V → L1Storage V → Checked V × L1Storage V
  check_l1 [] r c = (r, c)
  check_l1 (key ∷ keys) r c =
      let (value, c') = L1.get key c in check_l1 keys (check_key key value r) c'

  -- Phase 3: the answers of the second tier, which warm the first.
  unfoldable pub warm_results :
      Dict (Option V)
      → Dict (Option V × CacheSource)
      → L1Storage V
      → Dict (Option V × CacheSource) × L1Storage V
  warm_results [] results c = (results, c)
  warm_results ((key, none) ∷ d) results c = warm_results d (insert key (none, miss) results) c
  warm_results ((key, some v) ∷ d) results c =
      warm_results d (insert key (some v, tier_l2) results) (L1.set key v c)

module _ {V W : Type 0} (s : Store V W) where
  -- Phases 2 and 3 of `batch_get`.
  unfoldable pub fetch_misses :
      Checked V × L1Storage V → M (Tiers V W) (Dict (Option V × CacheSource))
  fetch_misses (r, c) t = elim r.l2_keys [
    | [] ↦ (ok r.results, record t { l1 = c })
    | _ ∷ _ ↦ then_with (on_l2 (l2_batch_get s r.l2_keys) (record t { l1 = c })) λ found u.
        let (results, c') = warm_results found r.results u.l1 in (ok results, record u { l1 = c' })
  ]

  -- `CacheStrategy.batch_get`; with no keys there is nothing to check or to fetch.
  unfoldable pub batch_get : List String → M (Tiers V W) (Dict (Option V × CacheSource))
  unfolding fetch_misses
  batch_get keys t = fetch_misses (check_l1 keys (record { results = []; l2_keys = [] }) t.l1) t
