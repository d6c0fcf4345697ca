-- ===== src/Tests/Rules.antt =====
-- Requests that the validators judge, with `strip` and `lower` for texts that need neither.
use sse_llm_streaming_servic.Base.{char_count, ◌≡◌, refl, [], ◌∷◌, not, ◌&&◌, some, map, leb}
use sse_llm_streaming_servic.Validators.{
  is_text, Rules, is_blank, validate_request, valid_providers,
}
use sse_llm_streaming_servic.Validators.Checks.{passed, none_finds}
use sse_llm_streaming_servic.Validators.Acceptance.{accepts_model, passed-validate_request}

abbrev rules : Rules
rules = record {
  strip = λ t. t;
  lower = λ t. t;
  searches = (λ t. is_text "../" t) ∷ [];
  max_length = 5;
}

lowered : map rules.lower valid_providers ≡ valid_providers
lowered = refl

passed-validate_request_example :
    passed (validate_request rules "hi" "gpt-4" (some "openai"))
    ≡ (not (is_blank rules "hi") && (leb (char_count "hi") 5 && none_finds rules.searches "hi"))
      && accepts_model rules "gpt-4" (some "openai")
passed-validate_request_example = passed-validate_request rules "hi" "gpt-4" (some "openai") lowered
