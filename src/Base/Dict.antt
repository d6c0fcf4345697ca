-- ===== src/Base/Dict.antt =====
-- Python's `dict` and `OrderedDict` with text keys, as association lists in insertion order.
use Prim.Native.Nat.{◌+◌, ◌≤◌}
use Prim.Native.String.{String}
use mathlib.Core.Path.{◌≡◌, refl}
use mathlib.Core.Logic.{ite}
use mathlib.Core.Option.{Option, none, some}
use mathlib.Core.List.{List, [], ◌∷◌, ◌++◌}
use native.Mathlib.Omega.{arith}
use sse_llm_streaming_servic.Base.Tests.{string_discrete}
use sse_llm_streaming_servic.Base.Lists.{length}

abbrev pub Dict {ℓ} : Type ℓ → Type ℓ
Dict V = List (String × V)

module _ {ℓ} {V : Type ℓ} where
  -- `d.get(k)`
  unfoldable pub lookup : String → Dict V → Option V
  lookup k [] = none
  lookup k ((j, v) ∷ d) = ite (string_discrete j k) (some v) (lookup k d)

  -- `d[k] = v`: in place if the key is there, at the end if it is new.
  unfoldable pub insert : String → V → Dict V → Dict V
  insert k v [] = (k, v) ∷ []
  insert k v ((j, w) ∷ d) = ite (string_discrete j k) ((j, v) ∷ d) ((j, w) ∷ insert k v d)

  -- `del d[k]`, and `d.pop(k, None)`; a key is there once at most.
  unfoldable pub remove : String → Dict V → Dict V
  remove k [] = []
  remove k ((j, v) ∷ d) = ite (string_discrete j k) (remove k d) ((j, v) ∷ remove k d)

  unfoldable pub keys : Dict V → List String
  keys [] = []
  keys ((k, v) ∷ d) = k ∷ keys d

  -- No key twice.
  abbrev pub Distinct : Dict V → Type ℓ
  Distinct [] = Unit
  Distinct ((k, v) ∷ d) = (lookup k d ≡ none) × Distinct d

module _ {ℓ} {V : Type ℓ} where
  pub lookup-insert :
      (j k : String) (v : V) (d : Dict V)
      → lookup j (insert k v d) ≡ ite (string_discrete k j) (some v) (lookup j d)
  unfolding lookup insert
  lookup-insert j k v [] = refl
  lookup-insert j k v ((i, w) ∷ d) = ground (arith, lookup-insert j k v d)

  pub lookup-remove :
      (j k : String) (d : Dict V)
      → lookup j (remove k d) ≡ ite (string_discrete k j) none (lookup j d)
  unfolding lookup remove
  lookup-remove j k [] = ground arith
  lookup-remove j k ((i, w) ∷ d) = ground (arith, lookup-remove j k d)

  pub lookup-append_absent :
      (j : String) (c d : Dict V) → lookup j c ≡ none → lookup j (c ++ d) ≡ lookup j d
  unfolding lookup
  lookup-append_absent j [] d e = refl
  lookup-append_absent j ((i, w) ∷ c) d e = ground (arith, lookup-append_absent j c d)

  pub lookup-append_present :
      (j : String) (c d : Dict V) (v : V) → lookup j c ≡ some v → lookup j (c ++ d) ≡ some v
  unfolding lookup
  lookup-append_present j [] d v e = cc
  lookup-append_present j ((i, w) ∷ c) d v e = ground (arith, lookup-append_present j c d v)

  pub remove-Distinct : (k : String) (d : Dict V) → Distinct d → Distinct (remove k d)
  unfolding remove
  remove-Distinct k [] h = tt
  remove-Distinct k ((j, v) ∷ d) h = ground (arith, remove-Distinct k d, lookup-remove j k d)

  pub insert-Distinct : (k : String) (v : V) (d : Dict V) → Distinct d → Distinct (insert k v d)
  unfolding insert lookup
  insert-Distinct k v [] h = (refl, tt)
  insert-Distinct k v ((j, w) ∷ d) h = ground (arith, insert-Distinct k v d, lookup-insert j k v d)

  pub remove_absent : (k : String) (d : Dict V) → lookup k d ≡ none → remove k d ≡ d
  unfolding remove lookup
  remove_absent k [] h = refl
  remove_absent k ((j, v) ∷ d) h = ground (arith, remove_absent k d)

  -- In a dictionary a deletion drops one entry at most.
  pub length-remove : (k : String) (d : Dict V) → Distinct d → length d ≤ length (remove k d) + 1
  unfolding remove
  length-remove k [] h = omega arith
  length-remove k ((j, v) ∷ d) h = ground (arith, length-remove k d, remove_absent k d)

  pub insert_absent :
      (k : String) (v : V) (d : Dict V) → lookup k d ≡ none → insert k v d ≡ d ++ (k, v) ∷ []
  unfolding insert lookup
  insert_absent k v [] h = refl
  insert_absent k v ((j, w) ∷ d) h = ground (arith, insert_absent k v d)

  pub length-remove_le : (k : String) (d : Dict V) → length (remove k d) ≤ length d
  unfolding remove
  length-remove_le k [] = omega arith
  length-remove_le k ((j, v) ∷ d) = ground (arith, length-remove_le k d)

  -- Deleting a key that is there makes the dictionary smaller.
  pub length-remove_present :
      (k : String) (v : V) (d : Dict V) → lookup k d ≡ some v → length (remove k d) + 1 ≤ length d
  unfolding remove lookup
  length-remove_present k v [] e = cc
  length-remove_present k v ((j, w) ∷ d) e =
      ground (arith, length-remove_present k v d, length-remove_le k d)

  pub lookup-remove_self : (k : String) (d : Dict V) → lookup k (remove k d) ≡ none
  lookup-remove_self k d = ground (arith, lookup-remove k k d)
