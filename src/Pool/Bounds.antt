-- ===== src/Pool/Bounds.antt =====
-- The limits of the pool on its local counters, for every history of acquisitions and releases.
use sse_llm_streaming_servic.Base.{
  ◌<◌, ◌≡◌, ◌≢◌, refl, String, List, [], ◌∷◌, false, some, arith, length, leb, Bool-cases, inl, inr,
}
use sse_llm_streaming_servic.Redis.{RedisClient}
use sse_llm_streaming_servic.Pool.{
  ConnectionPoolManager, World, increment_local, decrement_local, acquire_connection,
  release_connection,
}
use sse_llm_streaming_servic.Pool.Held.{
  Counts, count, drop_one, verdict, after_verdict, acquire_local, release_local, count-drop_one,
  length-drop_one, local_user_count-increment, local_user_count-decrement,
}

increment-Counts :
    (u t : String) (p : ConnectionPoolManager) (held : List String)
    → Counts p held
    → leb p.max_connections (length held) ≡ false
    → leb p.max_per_user (count u held) ≡ false
    → Counts (increment_local u t p) (u ∷ held)
unfolding increment_local count
increment-Counts u t p held h room room_user = record {
  local = h.local;
  total = ground (arith, h.total);
  by_user = λ j. ground (arith, h.by_user j, h.by_user u, local_user_count-increment j u t p);
  within = ground arith;
  within_user = λ j. ground (arith, h.within_user j);
}

pub decrement-Counts :
    (u t : String) (p : ConnectionPoolManager) (held : List String)
    → u ≢ ""
    → 0 < count u held
    → Counts p held
    → Counts (decrement_local (some u) t p) (drop_one u held)
unfolding decrement_local
decrement-Counts u t p held ne some_held h = record {
  local = h.local;
  total = ground (arith, h.total, length-drop_one u held);
  by_user = λ j. ground (
    arith,
    h.by_user j,
    h.by_user u,
    local_user_count-decrement j u t p,
    count-drop_one j u held,
  );
  within = ground (arith, h.within, length-drop_one u held);
  within_user = λ j. ground (arith, h.within_user j, count-drop_one j u held);
}

module _ {W : Type 0} (r : RedisClient W) where
  -- The pools that clients reach from one where nobody holds a connection, with the users that
  -- hold one: a client names a user, and a release gives back a connection that is held.
  pub data Reachable : World W → List String → Type 0 where
    started : {s : World W} → Counts s.pool [] → Reachable s []
    acquired :
        {s : World W} {held : List String} (u t : String)
        → Reachable s held
        → Reachable
            (acquire_connection r u t s).1
            (after_verdict (acquire_connection r u t s).0 u held)
    released :
        {s : World W} {held : List String} (u t : String)
        → u ≢ ""
        → 0 < count u held
        → Reachable s held
        → Reachable (release_connection r t (some u) s).1 (drop_one u held)

  pub acquire-Counts :
      (u t : String) (s : World W) (held : List String)
      → Counts s.pool held
      → Counts
          (acquire_connection r u t s).1.pool
          (after_verdict (acquire_connection r u t s).0 u held)
  unfolding verdict after_verdict
  acquire-Counts u t s held h =
      rw (acquire_local r u t s held h)
        (elim (Bool-cases (leb s.pool.max_connections (length held))) [
          | inl full ↦ rw full h
          | inr room ↦ rw room (elim (Bool-cases (leb s.pool.max_per_user (count u held))) [
            | inl limit ↦ rw limit h
            | inr room_user ↦ rw room_user (increment-Counts u t s.pool held h room room_user)
          ])
        ])

  pub Reachable-Counts : (s : World W) (held : List String) → Reachable s held → Counts s.pool held
  Reachable-Counts s held (started h) = h
  Reachable-Counts s held (acquired {s = s0} {held = held0} u t before) =
      acquire-Counts u t s0 held0 (Reachable-Counts s0 held0 before)
  Reachable-Counts s held (released {s = s0} {held = held0} u t ne some_held before) =
      let h : Counts s0.pool held0 = Reachable-Counts s0 held0 before in
      rw (release_local r u t s0 h.local) (decrement-Counts u t s0.pool held0 ne some_held h)

  -- In a reachable pool an acquisition succeeds exactly as the limits say: it raises the
  -- exhausted error when every connection is held, the user's limit error when the user holds as
  -- many as allowed, and returns True otherwise; only then does the number of connections change.
  pub acquire_connection-verdict :
      (u t : String) (s : World W) (held : List String)
      → Reachable s held
      → ((acquire_connection r u t s).0 ≡ verdict s.pool u held)
        × ((acquire_connection r u t s).1.pool.local_total_count
            ≡ length (after_verdict (verdict s.pool u held) u held))
  unfolding verdict increment_local after_verdict
  acquire_connection-verdict u t s held reach =
      let h = Reachable-Counts s held reach in
      rw (acquire_local r u t s held h)
        (elim (Bool-cases (leb s.pool.max_connections (length held))) [
          | inl full ↦ rw full (refl, h.total)
          | inr room ↦ rw room (elim (Bool-cases (leb s.pool.max_per_user (count u held))) [
            | inl limit ↦ rw limit (refl, h.total)
            | inr room_user ↦ rw room_user (refl, ground (arith, h.total))
          ])
        ])
