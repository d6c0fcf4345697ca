-- ===== src/Cache/L1.antt =====
-- `L1Storage` of src/infrastructure/cache/cache_manager.py: the in-memory LRU tier. The
-- OrderedDict is a dictionary in insertion order, the least recently used key first. The lock
-- makes each method atomic, so that a method is a function from a state to a state.
pub mod Invariant
pub mod Recency
use sse_llm_streaming_servic.Base.{
  ℕ, String, List, [], ◌∷◌, ◌++◌, Bool, true, false, Option, none, some, ltb, if◌then◌else◌, length,
}
use sse_llm_streaming_servic.Base.Dict.{Dict, lookup, insert, remove, keys}

pub record L1Storage {ℓ} (V : Type ℓ) : Type ℓ where
  pub max_size : ℕ
  pub items : Dict V

module _ {ℓ} {V : Type ℓ} where
  -- `OrderedDict.move_to_end(key)`, for a key that is there.
  unfoldable pub move_to_end : String → Dict V → Dict V
  move_to_end key d = elim (lookup key d) [ none ↦ d | some v ↦ remove key d ++ (key, v) ∷ [] ]

  -- `while len(self._cache) > self._max_size: self._cache.popitem(last=False)`
  unfoldable pub evict : ℕ → Dict V → Dict V
  evict max_size [] = []
  evict max_size (e ∷ d) =
      let rest = evict max_size d in if ltb max_size (length (e ∷ d)) then rest else e ∷ d

  unfoldable pub get : String → L1Storage V → Option V × L1Storage V
  get key c = elim (lookup key c.items) [
    | none ↦ (none, c)
    | some v ↦
        let items : Dict V = move_to_end key c.items in
        (lookup key items, record c { items = items })
  ]

  unfoldable pub set : String → V → L1Storage V → L1Storage V
  set key value c =
      let moved : Dict V = elim (lookup key c.items) [
        | none ↦ c.items
        | some v ↦ move_to_end key c.items
      ] in
      record c { items = evict c.max_size (insert key value moved) }

  unfoldable pub delete : String → L1Storage V → Bool × L1Storage V
  delete key c = elim (lookup key c.items) [
    | none ↦ (false, c)
    | some v ↦ (true, record c { items = remove key c.items })
  ]

  unfoldable pub clear : L1Storage V → L1Storage V
  clear c = record c { items = [] }

  unfoldable pub get_size : L1Storage V → ℕ
  get_size c = length c.items

  unfoldable pub get_keys : L1Storage V → List String
  get_keys c = keys c.items
