-- ===== src/Request.antt =====
-- The request that waits in the queue, `QueuedStreamingRequest` of
-- src/core/resilience/queue_request_handler.py, and the dictionary that the queue stores for it.
use sse_llm_streaming_servic.Base.{
  ℕ, ◌≡◌, refl, String, Option, none, some, Result, ok, raise, value_error, key_error, ite,
  string_discrete,
}
use sse_llm_streaming_servic.Base.Dict.{Dict}

pub data QueuedRequestStatus : Type 0 where
  pending processing completed failed timeout : QueuedRequestStatus

unfoldable pub value : QueuedRequestStatus → String
value pending = "pending"
value processing = "processing"
value completed = "completed"
value failed = "failed"
value timeout = "timeout"

-- `QueuedRequestStatus(text)`
unfoldable pub to_status : String → Result QueuedRequestStatus
to_status t = ite (string_discrete t "pending") (ok pending) (
    ite (string_discrete t "processing") (ok processing) (
      ite (string_discrete t "completed") (ok completed) (
        ite (string_discrete t "failed") (ok failed)
          (ite (string_discrete t "timeout") (ok timeout) (raise value_error)))))

pub record QueuedStreamingRequest : Type 0 where
  pub request_id : String
  pub user_id : String
  pub thread_id : String
  pub payload : Dict String
  pub enqueue_time : ℕ
  pub retry_count : ℕ
  pub status : QueuedRequestStatus

-- The dictionary of a stored request, by its keys; a key that is not there is `none`.
pub record Stored : Type 0 where
  pub request_id : Option String
  pub user_id : Option String
  pub thread_id : Option String
  pub payload : Option (Dict String)
  pub enqueue_time : Option ℕ
  pub retry_count : Option ℕ
  pub status : Option String

unfoldable pub to_dict : QueuedStreamingRequest → Stored
to_dict q = record {
  request_id = some q.request_id;
  user_id = some q.user_id;
  thread_id = some q.thread_id;
  payload = some q.payload;
  enqueue_time = some q.enqueue_time;
  retry_count = some q.retry_count;
  status = some (value q.status);
}

abbrev bind {ℓ κ} : {A : Type ℓ} {B : Type κ} → Result A → (A → Result B) → Result B
bind (ok a) f = f a
bind (raise e) f = raise e

-- `data[key]`
abbrev item {ℓ} : {A : Type ℓ} → Option A → Result A
item none = raise key_error
item (some a) = ok a

-- `data.get(key, default)`
abbrev get_or {ℓ} : {A : Type ℓ} → Option A → A → A
get_or none d = d
get_or (some a) d = a

unfoldable pub from_dict : Stored → ℕ → Result QueuedStreamingRequest
from_dict stored now = bind (item stored.request_id) λ request_id.
    bind (item stored.user_id) λ user_id. bind (item stored.thread_id) λ thread_id.
      bind (item stored.payload) λ payload.
        bind (to_status (get_or stored.status "pending")) λ status. ok (record {
          request_id = request_id;
          user_id = user_id;
          thread_id = thread_id;
          payload = payload;
          enqueue_time = get_or stored.enqueue_time now;
          retry_count = get_or stored.retry_count 0;
          status = status;
        })

to_status-value : (s : QueuedRequestStatus) → to_status (value s) ≡ ok s
unfolding to_status value string_discrete
to_status-value pending = refl
to_status-value processing = refl
to_status-value completed = refl
to_status-value failed = refl
to_status-value timeout = refl

-- A request that was stored is read back as it was, at any later time.
pub from_dict-to_dict : (q : QueuedStreamingRequest) (now : ℕ) → from_dict (to_dict q) now ≡ ok q
unfolding from_dict to_dict
from_dict-to_dict q now = rw (to_status-value q.status) refl
