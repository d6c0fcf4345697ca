-- ===== src/Pipeline/Futures.antt =====
-- Which futures are settled when results or an exception are set for a queue.
use sse_llm_streaming_servic.Base.{
  ℕ, ◌≡◌, refl, List, [], ◌∷◌, ◌++◌, Bool, true, false, Exn, length, ◌==◌, if◌then◌else◌, arith,
  inl, inr, Bool-cases,
}
use sse_llm_streaming_servic.Pipeline.{
  Future, pending, done, failed, cancelled, unless_done, settle, set_results, set_exceptions,
}

abbrev pub is_pending : {R : Type 0} → Future R → Bool
is_pending pending = true
is_pending _ = false

-- Whether a future is among those of a queue.
unfoldable pub waits : {C : Type 0} → ℕ → List (C × ℕ) → Bool
waits id [] = false
waits id (q ∷ qs) = if q.1 == id then true else waits id qs

pub waits-snoc :
    {C : Type 0} (id n : ℕ) (c : C) (qs : List (C × ℕ))
    → waits id qs ≡ true
    → waits id (qs ++ (c, n) ∷ []) ≡ true
unfolding waits
waits-snoc id n c [] h = cc h
waits-snoc id n c (q ∷ qs) h = ground (arith, waits-snoc id n c qs)

pub waits-none : {C : Type 0} (id : ℕ) (qs : List (C × ℕ)) → qs ≡ [] → waits id qs ≡ false
unfolding waits
waits-none id [] e = refl
waits-none id (q ∷ qs) e = cc e

pub waits-last :
    {C : Type 0} (id n : ℕ) (c : C) (qs : List (C × ℕ))
    → (n == id) ≡ true
    → waits id (qs ++ (c, n) ∷ []) ≡ true
unfolding waits
waits-last id n c [] e = ground arith
waits-last id n c (q ∷ qs) e = ground (arith, waits-last id n c qs e)

module _ {R : Type 0} where
  unless_done-settled :
      (x y : Future R) → is_pending x ≡ false → is_pending (unless_done x y) ≡ false
  unless_done-settled x pending h = h
  unless_done-settled x (done r) h = refl
  unless_done-settled x (failed e) h = refl
  unless_done-settled x cancelled h = refl

  unless_done-keeps : (x y : Future R) → is_pending y ≡ false → is_pending (unless_done x y) ≡ false
  unless_done-keeps x pending h = cc h
  unless_done-keeps x (done r) h = refl
  unless_done-keeps x (failed e) h = refl
  unless_done-keeps x cancelled h = refl

  settle-settled :
      (id j : ℕ) (x : Future R) (f : ℕ → Future R)
      → is_pending x ≡ false
      → (id == j) ≡ true
      → is_pending (settle id x f j) ≡ false
  unfolding settle
  settle-settled id j x f e same = rw (same, settle) (unless_done-settled x (f j) e)

  pub settle-keeps :
      (id j : ℕ) (x : Future R) (f : ℕ → Future R)
      → is_pending (f j) ≡ false
      → is_pending (settle id x f j) ≡ false
  unfolding settle
  settle-keeps id j x f e = elim (Bool-cases (id == j)) [
    | inl same ↦ rw (same, settle) (unless_done-keeps x (f j) e)
    | inr other ↦ rw (other, settle) e
  ]

module _ {C R : Type 0} where
  pub set_results-keeps :
      (qs : List (C × ℕ)) (rs : List R) (f : ℕ → Future R) (j : ℕ)
      → is_pending (f j) ≡ false
      → is_pending (set_results qs rs f j) ≡ false
  unfolding set_results
  set_results-keeps [] rs f j h = h
  set_results-keeps (q ∷ qs) [] f j h = h
  set_results-keeps (q ∷ qs) (r ∷ rs) f j h =
      set_results-keeps qs rs (settle q.1 (done r) f) j (settle-keeps q.1 j (done r) f h)

  pub set_results-settled :
      (qs : List (C × ℕ)) (rs : List R) (f : ℕ → Future R) (j : ℕ)
      → length rs ≡ length qs
      → waits j qs ≡ true
      → is_pending (set_results qs rs f j) ≡ false
  unfolding set_results waits
  set_results-settled [] rs f j e w = cc w
  set_results-settled (q ∷ qs) [] f j e w = absurd (omega arith)
  set_results-settled (q ∷ qs) (r ∷ rs) f j e w = elim (Bool-cases (q.1 == j)) [
    | inl same ↦
        set_results-keeps qs rs (settle q.1 (done r) f) j
          (settle-settled q.1 j (done r) f refl same)
    | inr other ↦
        set_results-settled qs rs (settle q.1 (done r) f) j (omega arith) (rw (other, waits) at w)
  ]

  pub set_exceptions-keeps :
      (qs : List (C × ℕ)) (e : Exn) (f : ℕ → Future R) (j : ℕ)
      → is_pending (f j) ≡ false
      → is_pending (set_exceptions qs e f j) ≡ false
  unfolding set_exceptions
  set_exceptions-keeps [] e f j h = h
  set_exceptions-keeps (q ∷ qs) e f j h =
      set_exceptions-keeps qs e (settle q.1 (failed e) f) j (settle-keeps q.1 j (failed e) f h)

  pub set_exceptions-settled :
      (qs : List (C × ℕ)) (e : Exn) (f : ℕ → Future R) (j : ℕ)
      → waits j qs ≡ true
      → is_pending (set_exceptions qs e f j) ≡ false
  unfolding set_exceptions waits
  set_exceptions-settled [] e f j w = cc w
  set_exceptions-settled (q ∷ qs) e f j w = elim (Bool-cases (q.1 == j)) [
    | inl same ↦
        set_exceptions-keeps qs e (settle q.1 (failed e) f) j
          (settle-settled q.1 j (failed e) f refl same)
    | inr other ↦ set_exceptions-settled qs e (settle q.1 (failed e) f) j (rw (other, waits) at w)
  ]
