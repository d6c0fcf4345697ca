-- ===== src/Validators/Checks.antt =====
-- Which single checks pass, as tests that can be combined.
use sse_llm_streaming_servic.Base.{
  char_count, ℕ, ◌≡◌, refl, ap, ◌∙◌, String, List, [], ◌∷◌, ◌++◌, Bool, true, false, not, ◌||◌,
  ◌&&◌, none, some, ltb, leb, arith,
}
use sse_llm_streaming_servic.Base.Dict.{lookup}
use sse_llm_streaming_servic.Provider.{contains}
use sse_llm_streaming_servic.Validators.{
  Failure, validation_error, security_error, Outcome, passes, fails, ◌andthen◌, wrapped, failing_if,
  is_text, too_short, too_long, validate_length, valid_models, openai_models, anthropic_models,
  google_models, deepseek_models, provider_models, valid_providers, Rules, check_each,
}

unfoldable pub passed : Outcome → Bool
passed passes = true
passed (fails e) = false

-- No search finds anything in a text.
unfoldable pub none_finds : List (String → Bool) → String → Bool
none_finds [] value = true
none_finds (search ∷ searches) value = not (search value) && none_finds searches value

-- Whether a provider of a name is known, and has a model.
unfoldable pub has_model : String → String → Bool
has_model name model = elim (lookup name provider_models) [
  | none ↦ false
  | some models ↦ contains model models
]

pub passed-andthen : (a b : Outcome) → passed (a andthen b) ≡ passed a && passed b
unfolding passed
passed-andthen passes b = refl
passed-andthen (fails e) b = refl

pub passed-wrapped : (e : Failure) (a : Outcome) → passed (wrapped e a) ≡ passed a
unfolding passed
passed-wrapped e passes = refl
passed-wrapped e (fails x) = refl

pub passed-failing_if : (e : Failure) (b : Bool) → passed (failing_if e b) ≡ not b
unfolding passed
passed-failing_if e true = refl
passed-failing_if e false = refl

pub passed-check_each :
    (rules : Rules) (searches : List (String → Bool)) (value : String)
    → passed (check_each rules searches value) ≡ none_finds searches value
unfolding check_each none_finds passed
passed-check_each rules [] value = refl
passed-check_each rules (search ∷ searches) value =
    rw
      (
        passed-andthen (failing_if security_error (search value)) (check_each rules searches value),
        passed-failing_if security_error (search value),
        passed-check_each rules searches value,
      )
      refl

contains-append :
    (x : String) (xs ys : List String) → contains x (xs ++ ys) ≡ contains x xs || contains x ys
unfolding contains
contains-append x [] ys = refl
contains-append x (y ∷ xs) ys = ground (arith, contains-append x xs ys)

-- A text that is not blank is not too short.
pub nonempty : (value : String) → is_text "" value ≡ false → ltb (char_count value) 1 ≡ false
unfolding char_count
nonempty String.[] e = absurd (ground arith)
nonempty (String.◌∷◌ c s) e = ground arith

pub known-none :
    (name : String) → lookup name provider_models ≡ none → contains name valid_providers ≡ false
unfolding lookup contains
known-none name e = ground arith

pub known-some :
    (name : String) (models : List String)
    → lookup name provider_models ≡ some models
    → contains name valid_providers ≡ true
unfolding lookup contains
known-some name models e = ground arith

contains-valid_models :
    (x : String)
    → contains x valid_models
      ≡ contains x openai_models
        || (contains x anthropic_models || (contains x google_models || contains x deepseek_models))
unfolding valid_models
contains-valid_models x =
    contains-append x openai_models (anthropic_models ++ google_models ++ deepseek_models)
    ∙ ap (λ b. contains x openai_models || b)
        (contains-append x anthropic_models (google_models ++ deepseek_models)
          ∙ ap (λ b. contains x anthropic_models || b)
              (contains-append x google_models deepseek_models))

-- The models of a provider are among all of them.
among :
    (name x : String) (models a b c d : List String)
    → lookup name (("openai", a) ∷ ("anthropic", b) ∷ ("google", c) ∷ ("deepseek", d) ∷ [])
      ≡ some models
    → contains x models ≡ true
    → contains x a || (contains x b || (contains x c || contains x d)) ≡ true
unfolding lookup
among name x models a b c d e k = ground arith

pub models_valid :
    (name x : String) (models : List String)
    → lookup name provider_models ≡ some models
    → contains x models ≡ true
    → contains x valid_models ≡ true
models_valid name x models e k =
    contains-valid_models x
    ∙ among name x models openai_models anthropic_models google_models deepseek_models e k

pub not-not : (b : Bool) → not (not b) ≡ b
not-not true = refl
not-not false = refl

pub and_assoc : (a b c : Bool) → (a && b) && c ≡ a && (b && c)
and_assoc true b c = refl
and_assoc false b c = refl

pub and_true : (a : Bool) → a && true ≡ a
and_true true = refl
and_true false = refl

pub and_false : (a : Bool) → a && false ≡ false
and_false true = refl
and_false false = refl

-- A second test that the third implies.
pub and_implied : (a b c : Bool) → (c ≡ true → b ≡ true) → (a && b) && c ≡ a && c
and_implied false b c h = refl
and_implied true b true h = rw (h refl) refl
and_implied true b false h = and_false b

pub has_model-none :
    (name model : String) → lookup name provider_models ≡ none → has_model name model ≡ false
unfolding has_model
has_model-none name model e = rw (e, has_model) refl

pub has_model-some :
    (name model : String) (models : List String)
    → lookup name provider_models ≡ some models
    → has_model name model ≡ contains model models
unfolding has_model
has_model-some name model models e = rw (e, has_model) refl

not-ltb : (a b : ℕ) → not (ltb a b) ≡ leb b a
not-ltb a b = ground arith

pub passed-validate_length :
    (value : String) (n : ℕ)
    → passed (validate_length value (some 1) (some n))
      ≡ not (ltb (char_count value) 1) && leb (char_count value) n
unfolding validate_length too_short too_long
passed-validate_length value n =
    rw
      (
        passed-andthen (failing_if validation_error (ltb (char_count value) 1))
            (failing_if validation_error (ltb n (char_count value))),
        passed-failing_if validation_error (ltb (char_count value) 1),
        passed-failing_if validation_error (ltb n (char_count value)),
        not-ltb n (char_count value),
      )
      refl
