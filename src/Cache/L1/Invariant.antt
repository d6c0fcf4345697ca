-- ===== src/Cache/L1/Invariant.antt =====
-- What holds of the LRU tier between two calls, and what a read finds after a call.
use sse_llm_streaming_servic.Base.{
  ℕ, suc, ◌-◌, ◌≤◌, ◌≡◌, refl, String, [], ◌∷◌, ◌++◌, none, some, arith, length, length-append,
  drop, string_discrete, dec_lt, ite, inl, inr, Option-cases,
}
use sse_llm_streaming_servic.Base.Dict.{
  Dict, lookup, insert, remove, Distinct, lookup-remove, lookup-append_absent,
  lookup-append_present, remove-Distinct, remove_absent, insert_absent, lookup-remove_self,
  length-remove_present,
}
use sse_llm_streaming_servic.Cache.L1.{L1Storage, move_to_end, evict, get, set, delete}

-- A dictionary of distinct keys, never larger than the capacity.
pub record IsValid {ℓ} {V : Type ℓ} (c : L1Storage V) : Type ℓ where
  pub distinct : Distinct c.items
  pub bounded : length c.items ≤ c.max_size

module _ {ℓ} {V : Type ℓ} where
  -- The key at the end with the value: what a use of a key makes of the order.
  unfoldable pub touch : String → V → Dict V → Dict V
  touch k v d = remove k d ++ (k, v) ∷ []

  pub lookup-touch :
      (j k : String) (v : V) (d : Dict V)
      → lookup j (touch k v d) ≡ ite (string_discrete k j) (some v) (lookup j d)
  unfolding touch lookup
  lookup-touch j k v d = elim (Option-cases (lookup j (remove k d))) [
    | inl e ↦ ground (arith, lookup-remove j k d, lookup-append_absent j (remove k d) ((k, v) ∷ []))
    | inr (w, e) ↦
        ground (arith, lookup-remove j k d, lookup-append_present j (remove k d) ((k, v) ∷ []) w)
  ]

  touch_lem : (k : String) (v : V) (d : Dict V) → remove k d ++ (k, v) ∷ [] ≡ touch k v d
  unfolding touch
  touch_lem k v d = refl

  append-Distinct :
      (k : String) (v : V) (d : Dict V)
      → lookup k d ≡ none
      → Distinct d
      → Distinct (d ++ (k, v) ∷ [])
  unfolding lookup
  append-Distinct k v [] e h = (refl, tt)
  append-Distinct k v ((j, w) ∷ d) e h =
      ground (arith, append-Distinct k v d, lookup-append_absent j d ((k, v) ∷ []))

  pub touch-Distinct : (k : String) (v : V) (d : Dict V) → Distinct d → Distinct (touch k v d)
  unfolding touch
  touch-Distinct k v d h =
      append-Distinct k v (remove k d) (ground (arith, lookup-remove k k d)) (remove-Distinct k d h)

  -- `evict` keeps the last `n` entries.
  pub evict-drop : (n : ℕ) (d : Dict V) → evict n d ≡ drop (length d - n) d
  unfolding evict
  evict-drop n [] = ground arith
  evict-drop n (e ∷ d) = elim (dec_lt n (suc (length d))) [
    | yes p ↦
        let q : suc (length d) - n ≡ suc (length d - n) = omega arith in
        rw q (ground (arith, evict-drop n d))
    | no p ↦ let q : suc (length d) - n ≡ 0 = omega arith in rw q (ground arith)
  ]

  pub length-evict : (n : ℕ) (d : Dict V) → length (evict n d) ≤ n
  unfolding evict
  length-evict n [] = omega arith
  length-evict n (e ∷ d) = ground (arith, length-evict n d)

  pub evict_fits : (n : ℕ) (d : Dict V) → length d ≤ n → evict n d ≡ d
  unfolding evict
  evict_fits n [] h = refl
  evict_fits n (e ∷ d) h = ground arith

  pub evict-Distinct : (n : ℕ) (d : Dict V) → Distinct d → Distinct (evict n d)
  unfolding evict
  evict-Distinct n [] h = tt
  evict-Distinct n (e ∷ d) h = ground (arith, evict-Distinct n d)

  -- What is left after an eviction was there before, with its value.
  pub lookup-evict :
      (n : ℕ) (j : String) (d : Dict V) (v : V)
      → Distinct d
      → lookup j (evict n d) ≡ some v
      → lookup j d ≡ some v
  unfolding evict lookup
  lookup-evict n j [] v h e = e
  lookup-evict n j ((i, w) ∷ d) v h e = ground (arith, lookup-evict n j d v)

  insert-append :
      (k : String) (v w : V) (d : Dict V)
      → lookup k d ≡ none
      → insert k v (d ++ (k, w) ∷ []) ≡ d ++ (k, v) ∷ []
  unfolding insert lookup
  insert-append k v w [] e = ground arith
  insert-append k v w ((j, x) ∷ d) e = ground (arith, insert-append k v w d)

  -- `set` moves the key to the end and keeps the newest entries that fit.
  -- `set` moves the key to the end and keeps the newest entries that fit.
  pub set-touch :
      (k : String) (v : V) (c : L1Storage V)
      → set k v c ≡ record c { items = evict c.max_size (touch k v c.items) }
  unfolding set touch move_to_end
  set-touch k v c = elim (Option-cases (lookup k c.items)) [
    | inl e ↦ ground (arith, insert_absent k v c.items e, remove_absent k c.items e)
    | inr (w, e) ↦
        ground (arith, insert-append k v w (remove k c.items) (lookup-remove_self k c.items))
  ]

  -- What `get` leaves, and what it answers.
  unfoldable pub after_get : String → L1Storage V → L1Storage V
  after_get k c = elim (lookup k c.items) [
    | none ↦ c
    | some v ↦ record c { items = touch k v c.items }
  ]

  -- `get` answers what is stored, and a hit becomes the newest entry.
  pub get-after_get : (k : String) (c : L1Storage V) → get k c ≡ (lookup k c.items, after_get k c)
  unfolding get after_get move_to_end
  get-after_get k c = elim (Option-cases (lookup k c.items)) [
    | inl e ↦ ground arith
    | inr (w, e) ↦ ground (arith, lookup-touch k k w c.items, touch_lem k w c.items)
  ]

  pub length-touch :
      (k : String) (v w : V) (d : Dict V) → lookup k d ≡ some w → length (touch k v d) ≤ length d
  unfolding touch
  length-touch k v w d e =
      omega (arith, length-append (remove k d) ((k, v) ∷ []), length-remove_present k w d e)

  -- No call breaks the invariant; after `set` the size is within the capacity whatever it was before.
  pub set-IsValid : (k : String) (v : V) (c : L1Storage V) → Distinct c.items → IsValid (set k v c)
  set-IsValid k v c h = rw set-touch (record {
    distinct = evict-Distinct c.max_size (touch k v c.items) (touch-Distinct k v c.items h);
    bounded = length-evict c.max_size (touch k v c.items);
  })

  pub after_get-IsValid : (k : String) (c : L1Storage V) → IsValid c → IsValid (after_get k c)
  unfolding after_get
  after_get-IsValid k c h = elim (Option-cases (lookup k c.items)) [
    | inl e ↦ rw (e, after_get) h
    | inr (w, e) ↦
        rw (e, after_get)
          (record {
            distinct = touch-Distinct k w c.items h.distinct;
            bounded = omega (arith, length-touch k w w c.items e);
          })
  ]

  pub delete-IsValid : (k : String) (c : L1Storage V) → IsValid c → IsValid (delete k c).1
  unfolding delete
  delete-IsValid k c h = elim (Option-cases (lookup k c.items)) [
    | inl e ↦ rw (e, delete) h
    | inr (w, e) ↦
        rw (e, delete)
          (record {
            distinct = remove-Distinct k c.items h.distinct;
            bounded = omega (arith, length-remove_present k w c.items e);
          })
  ]
