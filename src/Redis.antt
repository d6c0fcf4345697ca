-- ===== src/Redis.antt =====
-- The Redis server and its client library, which the service calls and does not implement: a
-- parameter, with a server state `W`. Every command may raise. A value is what the text that the
-- server keeps stands for: a text, an integer or a time stamp.
use sse_llm_streaming_servic.Base.{ℕ, ◌≡◌, String, Option, none, some, M, ok, ite, string_discrete}
use sse_llm_streaming_servic.Base.Int.{ℤ, pos, succ, pred}

pub data Value : Type 0 where
  word : String → Value
  number : ℤ → Value
  stamp : ℕ → Value

pub record RedisClient (W : Type 0) : Type 0 where
  pub get : String → M W (Option Value)
  pub set : String → Value → M W (Unit {0})
  pub incr : String → M W ℤ
  pub decr : String → M W ℤ
  pub delete : String → M W (Unit {0})
  pub sadd : String → String → M W (Unit {0})
  pub srem : String → String → M W (Unit {0})

-- The integer that INCR and DECR read under a key; a key that is not there counts as 0.
abbrev pub counter : Option Value → Option ℤ
counter none = some (pos 0)
counter (some (number n)) = some n
counter (some (word t)) = none
counter (some (stamp t)) = none

-- The documented behaviour of the commands on a server that answers.
pub record IsRedis {W : Type 0} (r : RedisClient W) : Type 0 where
  pub content : W → String → Option Value
  pub get_content : (k : String) (w : W) → r.get k w ≡ (ok (content w k), w)
  pub set_ok : (k : String) (v : Value) (w : W) → (r.set k v w).0 ≡ ok tt
  pub set_content :
      (j k : String) (v : Value) (w : W)
      → content (r.set k v w).1 j ≡ ite (string_discrete k j) (some v) (content w j)
  pub incr_ok :
      (k : String) (w : W) (n : ℤ) → counter (content w k) ≡ some n → (r.incr k w).0 ≡ ok (succ n)
  pub incr_content :
      (j k : String) (w : W) (n : ℤ)
      → counter (content w k) ≡ some n
      → content (r.incr k w).1 j ≡ ite (string_discrete k j) (some (number (succ n))) (content w j)
  pub decr_ok :
      (k : String) (w : W) (n : ℤ) → counter (content w k) ≡ some n → (r.decr k w).0 ≡ ok (pred n)
  pub decr_content :
      (j k : String) (w : W) (n : ℤ)
      → counter (content w k) ≡ some n
      → content (r.decr k w).1 j ≡ ite (string_discrete k j) (some (number (pred n))) (content w j)
  pub delete_ok : (k : String) (w : W) → (r.delete k w).0 ≡ ok tt
  pub delete_content :
      (j k : String) (w : W)
      → content (r.delete k w).1 j ≡ ite (string_discrete k j) none (content w j)
  pub sadd_ok : (k m : String) (w : W) → (r.sadd k m w).0 ≡ ok tt
  pub srem_ok : (k m : String) (w : W) → (r.srem k m w).0 ≡ ok tt
  -- The set of a key is no text, integer or time stamp, and its commands touch no other key.
  pub sadd_content : (j k m : String) (w : W) → content (r.sadd k m w).1 j ≡ content w j
  pub srem_content : (j k m : String) (w : W) → content (r.srem k m w).1 j ≡ content w j
