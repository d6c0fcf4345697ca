-- ===== src/Metrics/Numbers.antt =====
-- Python's floats as the metrics use them: a parameter, and what holds at zero.
use sse_llm_streaming_servic.Base.{ℕ, suc, ◌≡◌, Bool, true, false}
use sse_llm_streaming_servic.Base.Int.{ℤ, pos}

-- `round` is to two digits; `is_special` holds of NaN and of the infinities.
pub record Floats (F : Type 0) : Type 0 where
  pub of_ℕ : ℕ → F
  pub add : F → F → F
  pub mul : F → F → F
  pub div : F → F → F
  pub lt : F → F → Bool
  pub le : F → F → Bool
  pub round : F → F
  pub int : F → ℤ
  pub is_zero : F → Bool
  pub is_special : F → Bool

abbrev pub zero_of : {F : Type 0} → Floats F → F
zero_of f = f.of_ℕ 0

pub record IsFloats {F : Type 0} (f : Floats F) : Type 0 where
  pub add_zero : f.add (zero_of f) (zero_of f) ≡ zero_of f
  pub mul_zero : (n : ℕ) → f.mul (zero_of f) (f.of_ℕ n) ≡ zero_of f
  pub div_zero : (n : ℕ) → f.div (zero_of f) (f.of_ℕ (suc n)) ≡ zero_of f
  pub lt_zero : f.lt (zero_of f) (zero_of f) ≡ false
  pub lt_suc : (n : ℕ) → f.lt (zero_of f) (f.of_ℕ (suc n)) ≡ true
  pub le_zero : (n : ℕ) → f.le (zero_of f) (f.of_ℕ n) ≡ true
  pub round_zero : f.round (zero_of f) ≡ zero_of f
  pub int_zero : f.int (zero_of f) ≡ pos 0
