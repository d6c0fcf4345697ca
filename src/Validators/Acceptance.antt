-- ===== src/Validators/Acceptance.antt =====
-- Which requests the validators let pass.
use sse_llm_streaming_servic.Base.{
  char_count, ◌≡◌, refl, sym, ap, ◌∙◌, String, List, Bool, true, false, not, ◌&&◌, Option, none,
  some, map, ltb, leb, arith, Bool-cases, Option-cases, inl, inr,
}
use sse_llm_streaming_servic.Base.Dict.{lookup}
use sse_llm_streaming_servic.Provider.{contains, given}
use sse_llm_streaming_servic.Validators.{
  validation_error, query_error, model_error, provider_error, Outcome, ◌andthen◌, validate_length,
  valid_models, provider_models, valid_providers, Rules, is_blank, validate_not_empty,
  validate_whitelist, check_each, check_security_patterns, validate_query,
  validate_model_for_provider, validate_given, validate_model, validate_provider, validate_request,
}
use sse_llm_streaming_servic.Validators.Checks.{
  passed, none_finds, has_model, passed-andthen, passed-wrapped, passed-failing_if,
  passed-check_each, nonempty, known-none, known-some, models_valid, not-not, and_assoc, and_true,
  and_false, and_implied, has_model-none, has_model-some, passed-validate_length,
}

module _ (rules : Rules) where
  blank-nonempty :
      (value : String) → is_blank rules value ≡ false → ltb (char_count value) 1 ≡ false
  unfolding is_blank
  blank-nonempty value e = nonempty value (ground (arith))

  passed-validate_not_empty :
      (value : String) → passed (validate_not_empty rules value) ≡ not (is_blank rules value)
  unfolding validate_not_empty
  passed-validate_not_empty value = passed-failing_if validation_error (is_blank rules value)

  passed-validate_query :
      (query : String)
      → passed (validate_query rules query)
        ≡ not (is_blank rules query)
          && (leb (char_count query) rules.max_length && none_finds rules.searches query)
  unfolding validate_query check_security_patterns
  passed-validate_query query =
      let first : Outcome = validate_not_empty rules query in
      let second : Outcome = validate_length query (some 1) (some rules.max_length) in
      let third : Outcome = check_each rules rules.searches query in
      let all : passed (validate_query rules query)
          ≡ (not (is_blank rules query)
              && (not (ltb (char_count query) 1) && leb (char_count query) rules.max_length))
            && none_finds rules.searches query =
        passed-wrapped query_error (first andthen second andthen third)
        ∙ passed-andthen (first andthen second) third
        ∙ ap (λ b. b && passed third) (passed-andthen first second)
        ∙ ap (λ b. (b && passed second) && passed third) (passed-validate_not_empty query)
        ∙ ap (λ b. (not (is_blank rules query) && b) && passed third)
            (passed-validate_length query rules.max_length)
        ∙ ap
            (λ b.
              (not (is_blank rules query)
                && (not (ltb (char_count query) 1) && leb (char_count query) rules.max_length))
              && b)
            (passed-check_each rules rules.searches query) in
      elim (Bool-cases (is_blank rules query)) [
        | inl e ↦ all ∙ rw e refl
        | inr e ↦ all ∙ rw (e, blank-nonempty query e) refl
      ]

  passed-validate_model :
      (model : String) (provider : Option String)
      → passed (validate_model rules model provider)
        ≡ (not (is_blank rules model) && contains model valid_models)
          && passed (validate_given rules model (given provider))
  unfolding validate_model validate_whitelist
  passed-validate_model model provider =
      let first : Outcome = validate_not_empty rules model in
      let second : Outcome = validate_whitelist rules model valid_models true in
      let third : Outcome = validate_given rules model (given provider) in
      passed-wrapped model_error (first andthen second andthen third)
      ∙ passed-andthen (first andthen second) third
      ∙ ap (λ b. b && passed third) (passed-andthen first second)
      ∙ ap (λ b. (b && passed second) && passed third) (passed-validate_not_empty model)
      ∙ ap (λ b. (not (is_blank rules model) && b) && passed third)
          (passed-failing_if validation_error (not (contains model valid_models))
            ∙ not-not (contains model valid_models))

  passed-validate_provider :
      (provider : String)
      → map rules.lower valid_providers ≡ valid_providers
      → passed (validate_provider rules (some provider))
        ≡ not (is_blank rules provider) && contains (rules.lower provider) valid_providers
  unfolding validate_provider validate_whitelist
  passed-validate_provider provider same =
      let first : Outcome = validate_not_empty rules provider in
      let second : Outcome = validate_whitelist rules provider valid_providers false in
      let known : Bool = contains (rules.lower provider) (map rules.lower valid_providers) in
      passed-wrapped provider_error (first andthen second)
      ∙ passed-andthen first second
      ∙ ap (λ b. b && passed second) (passed-validate_not_empty provider)
      ∙ ap (λ b. not (is_blank rules provider) && b)
          (passed-failing_if validation_error (not known)
            ∙ not-not known
            ∙ ap (contains (rules.lower provider)) same)

  given-some :
      (provider : String) → is_blank rules provider ≡ false → given (some provider) ≡ some provider
  unfolding is_blank given
  given-some provider e = ground arith

  -- The part of the request that names a model and a provider.
  unfoldable pub accepts_model : String → Option String → Bool
  accepts_model model none = not (is_blank rules model) && contains model valid_models
  accepts_model model (some provider) =
      not (is_blank rules provider)
      && (not (is_blank rules model) && has_model (rules.lower provider) model)

  passed-model_for_provider :
      (model provider : String) (models : List String)
      → lookup (rules.lower provider) provider_models ≡ some models
      → passed (validate_model_for_provider rules model provider) ≡ contains model models
  unfolding validate_model_for_provider
  passed-model_for_provider model provider models e =
      rw (e, validate_model_for_provider)
        (passed-failing_if model_error (not (contains model models))
          ∙ not-not (contains model models))

  model_part :
      (model : String) (provider : Option String)
      → map rules.lower valid_providers ≡ valid_providers
      → passed (validate_provider rules provider) && passed (validate_model rules model provider)
        ≡ accepts_model model provider
  unfolding accepts_model validate_provider given validate_given passed
  model_part model none same =
      passed-validate_model model none
      ∙ and_true (not (is_blank rules model) && contains model valid_models)
  model_part model (some provider) same =
      let name = rules.lower provider in
      elim (Bool-cases (is_blank rules provider)) [
        | inl e ↦ rw (passed-validate_provider provider same, e) refl
        | inr e ↦ elim (Option-cases (lookup name provider_models)) [
          | inl unknown ↦
              rw
                (
                  passed-validate_provider provider same,
                  e,
                  known-none name unknown,
                  has_model-none name model unknown,
                )
                (sym (and_false (not (is_blank rules model))))
          | inr (models, known) ↦
              rw
                (
                  passed-validate_provider provider same,
                  e,
                  known-some name models known,
                  has_model-some name model models known,
                  passed-validate_model model (some provider),
                  given-some provider e,
                  passed-model_for_provider model provider models known,
                )
                (and_implied (not (is_blank rules model)) (contains model valid_models)
                  (contains model models) (models_valid name model models known))
        ]
      ]

  -- A request passes the validators exactly when its query is not blank, not too long and free of the patterns,
  -- its model is not blank, and either no provider is named and the model is a known one, or the provider is not blank
  -- and its name in lower case is that of a known provider that has the model, whether or not the configuration
  -- enables it. Lower case leaves the names of the known providers as they are.
  pub passed-validate_request :
      (query model : String) (provider : Option String)
      → map rules.lower valid_providers ≡ valid_providers
      → passed (validate_request rules query model provider)
        ≡ (not (is_blank rules query)
            && (leb (char_count query) rules.max_length && none_finds rules.searches query))
          && accepts_model model provider
  unfolding validate_request
  passed-validate_request query model provider same =
      let first : Outcome = validate_query rules query in
      let second : Outcome = validate_provider rules provider in
      let third : Outcome = validate_model rules model provider in
      passed-andthen (first andthen second) third
      ∙ ap (λ b. b && passed third) (passed-andthen first second)
      ∙ and_assoc (passed first) (passed second) (passed third)
      ∙ ap (λ b. b && (passed second && passed third)) (passed-validate_query query)
      ∙ ap
          (λ b.
            (not (is_blank rules query)
              && (leb (char_count query) rules.max_length && none_finds rules.searches query))
            && b)
          (model_part model provider same)
