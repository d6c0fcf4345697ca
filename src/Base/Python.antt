-- ===== src/Base/Python.antt =====
-- Exceptions, results, and computations that keep the state they reached when they raise.
use mathlib.Core.Path.{◌≡◌, refl}
use mathlib.Core.Logic.{◌⊎◌, inl, inr}
use Prim.Native.Nat.{ℕ, ◌+◌}
use Prim.Native.String.{String}

-- The exceptions that the modelled code raises or tells apart; any other is `error` with its text.
-- `generator_exit`, which is no `Exception`, is met only where a generator's consumer may close it.
pub data Exn : Type 0 where
  connection_pool_exhausted : Exn
  user_connection_limit : Exn
  connection_pool_error : Exn
  circuit_breaker_open : Exn
  all_providers_down : Exn
  validation_error : Exn
  queue_full : Exn
  queue_error : Exn
  redis_error : Exn
  value_error : Exn
  key_error : Exn
  index_error : Exn
  generator_exit : Exn
  retry_error : Exn
  runtime_error : Exn
  attribute_error : Exn
  connect_error : Exn
  timeout_error : Exn
  http_status_error : Exn
  cache_connection_error : Exn
  cache_key_error : Exn
  prometheus_connection_error : Exn
  prometheus_query_error : Exn
  prometheus_extraction_error : Exn
  provider_error : String → Exn
  error : String → Exn

pub data Result {ℓ} (A : Type ℓ) : Type ℓ where
  ok : A → Result A
  raise : Exn → Result A

-- A computation over the state `S`: an exception leaves the changes made before it.
abbrev pub M : Type 0 → Type 0 → Type 0
M S A = S → Result A × S

abbrev pub then_with : {S A B : Type 0} → Result A × S → (A → M S B) → Result B × S
then_with (ok a, s) f = f a s
then_with (raise e, s) f = (raise e, s)

infixl 5 ◌>>=◌ ◌>>◌
abbrev pub ◌>>=◌ : {S A B : Type 0} → M S A → (A → M S B) → M S B
◌>>=◌ m f s = then_with (m s) f

abbrev pub ◌>>◌ : {S A B : Type 0} → M S A → M S B → M S B
m >> k = m >>= λ _. k

abbrev pub pure : {S A : Type 0} → A → M S A
pure a s = (ok a, s)

abbrev pub throw : {S A : Type 0} → Exn → M S A
throw e s = (raise e, s)

abbrev pub handle_with : {S A : Type 0} → Result A × S → (Exn → M S A) → Result A × S
handle_with (ok a, s) h = (ok a, s)
handle_with (raise e, s) h = h e s

-- `try: m except Exception as e: h e`.
abbrev pub try : {S A : Type 0} → M S A → (Exn → M S A) → M S A
try m h s = handle_with (m s) h

pub Result-cases {ℓ} :
    {A : Type ℓ} (x : Result A) → ((a : A) × (x ≡ ok a)) ⊎ ((e : Exn) × (x ≡ raise e))
Result-cases (ok a) = inl (a, refl)
Result-cases (raise e) = inr (e, refl)

-- `len` of a text, in characters.
unfoldable pub char_count : String → ℕ
char_count String.[] = 0
char_count (String.◌∷◌ c s) = char_count s + 1
