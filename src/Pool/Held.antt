-- ===== src/Pool/Held.antt =====
-- The pool on its local counters, against the list of the users that hold a connection.
use sse_llm_streaming_servic.Base.{
  ℕ, ◌+◌, ◌-◌, ◌≤◌, ◌<◌, ◌≡◌, ◌≢◌, refl, String, List, [], ◌∷◌, Bool, true, false, Option, some,
  Result, ok, raise, connection_pool_exhausted, user_connection_limit, arith, ite, string_discrete,
  length, leb, if◌then◌else◌, inl, inr, Option-cases,
}
use sse_llm_streaming_servic.Base.Dict.{lookup, lookup-insert, lookup-remove}
use sse_llm_streaming_servic.Base.Int.{pos}
use sse_llm_streaming_servic.Redis.{RedisClient}
use sse_llm_streaming_servic.Pool.{
  ConnectionPoolManager, World, local_user_count, increment_local, decrement_local, decrement_user,
  get_total_count, get_user_count, increment_counts, decrement_counts, get_pool_state, classify,
  reserve, wrap_error, acquire_connection, release_connection,
}

-- How many connections a user holds.
unfoldable pub count : String → List String → ℕ
count u [] = 0
count u (x ∷ xs) = ite (string_discrete x u) (count u xs + 1) (count u xs)

-- The list without one connection of the user.
unfoldable pub drop_one : String → List String → List String
drop_one u [] = []
drop_one u (x ∷ xs) = ite (string_discrete x u) xs (x ∷ drop_one u xs)

pub count-drop_one :
    (j u : String) (xs : List String)
    → 0 < count u xs
    → count j (drop_one u xs) ≡ ite (string_discrete u j) (count j xs - 1) (count j xs)
unfolding count drop_one
count-drop_one j u [] h = absurd (omega arith)
count-drop_one j u (x ∷ xs) h = elim (string_discrete x u) [
  | yes p ↦ elim (string_discrete x j) [ yes q ↦ ground arith | no q ↦ ground arith ]
  | no p ↦
      let pos_u : 0 < count u xs = ground arith in
      let tail : count j (drop_one u xs) ≡ ite (string_discrete u j) (count j xs - 1) (count j xs) =
        count-drop_one j u xs pos_u in
      elim (string_discrete x j) [ yes q ↦ ground (arith, tail) | no q ↦ ground (arith, tail) ]
]

pub length-drop_one :
    (u : String) (xs : List String) → 0 < count u xs → length (drop_one u xs) + 1 ≡ length xs
unfolding count drop_one
length-drop_one u [] h = absurd (omega arith)
length-drop_one u (x ∷ xs) h = ground (arith, length-drop_one u xs)

-- The counters agree with what is held, which is within both limits.
pub record Counts (p : ConnectionPoolManager) (held : List String) : Type 0 where
  pub local : p.connected ≡ false
  pub total : p.local_total_count ≡ length held
  pub by_user : (u : String) → local_user_count p u ≡ count u held
  pub within : length held ≤ p.max_connections
  pub within_user : (u : String) → count u held ≤ p.max_per_user

-- Whether the pool should grant a connection, and the error if it should not.
unfoldable pub verdict : ConnectionPoolManager → String → List String → Result Bool
verdict p u held =
    if leb p.max_connections (length held)
    then raise connection_pool_exhausted
    else (if leb p.max_per_user (count u held) then raise user_connection_limit else ok true)

-- What is held after a verdict.
unfoldable pub after_verdict : Result Bool → String → List String → List String
after_verdict (ok a) u held = u ∷ held
after_verdict (raise e) u held = held

module _ {W : Type 0} (r : RedisClient W) where
  module _ (s : World W) (off : s.pool.connected ≡ false) where
    get_total_count_local : get_total_count r s ≡ (ok (pos s.pool.local_total_count), s)
    unfolding get_total_count
    get_total_count_local = rw off refl

    get_user_count_local :
        (u : String) → get_user_count r u s ≡ (ok (pos (local_user_count s.pool u)), s)
    unfolding get_user_count
    get_user_count_local u = rw off refl

    increment_counts_local :
        (u t : String)
        → increment_counts r u t s ≡ (ok tt, record s { pool = increment_local u t s.pool })
    unfolding increment_counts
    increment_counts_local u t = rw off refl

    decrement_counts_local :
        (u : Option String) (t : String)
        → decrement_counts r u t s ≡ (ok tt, record s { pool = decrement_local u t s.pool })
    unfolding decrement_counts
    decrement_counts_local u t = rw off refl

    get_pool_state_local :
        get_pool_state r s ≡ (ok (classify s.pool (pos s.pool.local_total_count)), s)
    unfolding get_pool_state
    get_pool_state_local = rw get_total_count_local refl

  pub acquire_local :
      (u t : String) (s : World W) (held : List String)
      → Counts s.pool held
      → acquire_connection r u t s ≡ elim (verdict s.pool u held) [
        | raise e ↦ (raise e, s)
        | ok a ↦ (ok a, record s { pool = increment_local u t s.pool })
      ]
  unfolding acquire_connection reserve verdict wrap_error
  acquire_local u t s held h =
      let s' : World W = record s { pool = increment_local u t s.pool } in
      let off' : s'.pool.connected ≡ false = unfold increment_local in h.local in
      ground (
        arith,
        get_total_count_local s h.local,
        get_user_count_local s h.local u,
        increment_counts_local s h.local u t,
        get_pool_state_local s' off',
        h.by_user u,
      )

  pub release_local :
      (u t : String) (s : World W)
      → s.pool.connected ≡ false
      → release_connection r t (some u) s
        ≡ (ok tt, record s { pool = decrement_local (some u) t s.pool })
  unfolding release_connection
  release_local u t s off =
      let s' : World W = record s { pool = decrement_local (some u) t s.pool } in
      let off' : s'.pool.connected ≡ false = unfold decrement_local in off in
      ground (
        arith,
        decrement_counts_local s off (some u) t,
        get_total_count_local s' off',
        get_pool_state_local s' off',
      )

pub local_user_count-increment :
    (j u t : String) (p : ConnectionPoolManager)
    → local_user_count (increment_local u t p) j
      ≡ ite (string_discrete u j) (local_user_count p u + 1) (local_user_count p j)
unfolding increment_local local_user_count
local_user_count-increment j u t p =
    ground (arith, lookup-insert j u (local_user_count p u + 1) p.local_user_counts)

pub local_user_count-decrement :
    (j u t : String) (p : ConnectionPoolManager)
    → u ≢ ""
    → local_user_count (decrement_local (some u) t p) j
      ≡ ite (string_discrete u j) (local_user_count p u - 1) (local_user_count p j)
unfolding decrement_local decrement_user local_user_count
local_user_count-decrement j u t p ne = elim (Option-cases (lookup u p.local_user_counts)) [
  | inl e ↦ ground arith
  | inr (n, e) ↦
      ground (
        arith,
        lookup-insert j u (n - 1) p.local_user_counts,
        lookup-remove j u p.local_user_counts,
      )
]
