-- ===== src/Cache/Store.antt =====
-- The Redis client that `L2Storage` of src/infrastructure/cache/cache_manager.py calls, as a
-- parameter: its commands may fail, and `W` is the state of the server. `IsStore` states what the
-- server documents, for keys that do not expire meanwhile and a server that answers.
use sse_llm_streaming_servic.Base.{ℕ, ◌≡◌, String, Option, none, some, M, ok, ite, string_discrete}

pub record Store (V W : Type 0) : Type 0 where
  pub get : String → M W (Option V)
  pub set : String → V → ℕ → M W (Unit {0})
  pub delete : String → M W (Unit {0})
  -- `get_pipeline_manager()`, and its `execute_command("get", key)`
  pub pipeline_mgr : Option (String → M W (Option V))

pub record IsStore {V W : Type 0} (s : Store V W) : Type 0 where
  pub content : W → String → Option V
  pub get_content : (k : String) (w : W) → s.get k w ≡ (ok (content w k), w)
  pub pipeline_content :
      (f : String → M W (Option V)) (k : String) (w : W)
      → s.pipeline_mgr ≡ some f
      → f k w ≡ (ok (content w k), w)
  pub set_ok : (k : String) (v : V) (ttl : ℕ) (w : W) → (s.set k v ttl w).0 ≡ ok tt
  pub set_content :
      (j k : String) (v : V) (ttl : ℕ) (w : W)
      → content (s.set k v ttl w).1 j ≡ ite (string_discrete k j) (some v) (content w j)
  pub delete_ok : (k : String) (w : W) → (s.delete k w).0 ≡ ok tt
  pub delete_content :
      (j k : String) (w : W)
      → content (s.delete k w).1 j ≡ ite (string_discrete k j) none (content w j)
