-- ===== src/Validators.antt =====
-- `BaseValidator` of src/application/validators/base.py and the validators of
-- src/application/validators/stream_validator.py. `strip`, `lower` and the searches of the compiled
-- patterns are parameters; the message of an error is left out. The validators are strict.
pub mod Acceptance
pub mod Checks
use sse_llm_streaming_servic.Base.{
  char_count, ℕ, String, List, [], ◌∷◌, ◌++◌, Bool, true, false, not, ◌||◌, Option, none, some, map,
  ltb, if◌then◌else◌, ite, string_discrete,
}
use sse_llm_streaming_servic.Base.Dict.{Dict, lookup}
use sse_llm_streaming_servic.Provider.{contains, given}

-- The classes of the errors.
pub data Failure : Type 0 where
  validation_error : Failure
  security_error : Failure
  query_error : Failure
  model_error : Failure
  provider_error : Failure

pub data Outcome : Type 0 where
  passes : Outcome
  fails : Failure → Outcome

infixl 5 ◌andthen◌
-- One check after another.
abbrev pub ◌andthen◌ : Outcome → Outcome → Outcome
◌andthen◌ passes o = o
◌andthen◌ (fails e) o = fails e

-- `except Exception`: what is not of the validator's class becomes that.
abbrev pub wrapped : Failure → Outcome → Outcome
wrapped e passes = passes
wrapped e (fails x) = fails e

abbrev pub failing_if : Failure → Bool → Outcome
failing_if e true = fails e
failing_if e false = passes

-- `value == text`
abbrev pub is_text : String → String → Bool
is_text text value = ite (string_discrete value text) true false

unfoldable pub too_short : Option ℕ → String → Bool
too_short none value = false
too_short (some n) value = ltb (char_count value) n

unfoldable pub too_long : Option ℕ → String → Bool
too_long none value = false
too_long (some n) value = ltb n (char_count value)

unfoldable pub validate_length : String → Option ℕ → Option ℕ → Outcome
validate_length value min_length max_length =
    failing_if validation_error (too_short min_length value)
    andthen failing_if validation_error (too_long max_length value)

abbrev pub openai_models : List String
openai_models =
    "gpt-3.5-turbo" ∷ "gpt-3.5-turbo-16k" ∷ "gpt-3.5-turbo-0125" ∷ "gpt-4" ∷ "gpt-4-turbo"
    ∷ "gpt-4-turbo-preview" ∷ "gpt-4o" ∷ "gpt-4o-mini" ∷ []

abbrev pub anthropic_models : List String
anthropic_models =
    "claude-3-opus-20240229" ∷ "claude-3-sonnet-20240229" ∷ "claude-3-haiku-20240307"
    ∷ "claude-3-5-sonnet-20240620" ∷ "claude-3-5-sonnet-20241022" ∷ "claude-3-opus"
    ∷ "claude-3-sonnet" ∷ "claude-3-haiku" ∷ "claude-3-5-sonnet" ∷ []

abbrev pub google_models : List String
google_models =
    "gemini-pro" ∷ "gemini-pro-vision" ∷ "gemini-1.5-pro" ∷ "gemini-1.5-pro-latest"
    ∷ "gemini-1.5-flash" ∷ "gemini-1.5-flash-latest" ∷ []

abbrev pub deepseek_models : List String
deepseek_models = "deepseek-chat" ∷ "deepseek-coder" ∷ []

unfoldable pub valid_models : List String
valid_models = openai_models ++ anthropic_models ++ google_models ++ deepseek_models

abbrev pub provider_models : Dict (List String)
provider_models =
    ("openai", openai_models)
    ∷ ("anthropic", anthropic_models)
    ∷ ("google", google_models)
    ∷ ("deepseek", deepseek_models)
    ∷ []

abbrev pub valid_providers : List String
valid_providers = "openai" ∷ "anthropic" ∷ "google" ∷ "deepseek" ∷ []

-- What Python provides, and the length that the settings allow.
pub record Rules : Type 0 where
  pub strip : String → String
  pub lower : String → String
  pub searches : List (String → Bool)
  pub max_length : ℕ

module _ (rules : Rules) where
  -- `not value or not value.strip()`
  unfoldable pub is_blank : String → Bool
  is_blank value = is_text "" value || is_text "" (rules.strip value)

  unfoldable pub validate_not_empty : String → Outcome
  validate_not_empty value = failing_if validation_error (is_blank value)

  unfoldable pub validate_whitelist : String → List String → Bool → Outcome
  validate_whitelist value allowed case_sensitive = failing_if validation_error (
      if case_sensitive
      then not (contains value allowed)
      else not (contains (rules.lower value) (map rules.lower allowed)))

  unfoldable pub check_each : List (String → Bool) → String → Outcome
  check_each [] value = passes
  check_each (search ∷ searches) value =
      failing_if security_error (search value) andthen check_each searches value

  unfoldable pub check_security_patterns : String → Outcome
  check_security_patterns value = check_each rules.searches value

  unfoldable pub validate_query : String → Outcome
  validate_query query = wrapped query_error (
      validate_not_empty query
      andthen validate_length query (some 1) (some rules.max_length)
      andthen check_security_patterns query)

  -- A provider that is not known has no models to be checked against.
  unfoldable pub validate_model_for_provider : String → String → Outcome
  validate_model_for_provider model provider =
      elim (lookup (rules.lower provider) provider_models) [
        | none ↦ passes
        | some models ↦ failing_if model_error (not (contains model models))
      ]

  unfoldable pub validate_given : String → Option String → Outcome
  validate_given model none = passes
  validate_given model (some provider) = validate_model_for_provider model provider

  unfoldable pub validate_model : String → Option String → Outcome
  validate_model model provider = wrapped model_error (
      validate_not_empty model
      andthen validate_whitelist model valid_models true
      andthen validate_given model (given provider))

  unfoldable pub validate_provider : Option String → Outcome
  validate_provider none = passes
  validate_provider (some provider) =
      wrapped provider_error
        (validate_not_empty provider andthen validate_whitelist provider valid_providers false)

  unfoldable pub validate_request : String → String → Option String → Outcome
  validate_request query model provider =
      validate_query query andthen validate_provider provider andthen validate_model model provider
