-- ===== src/Base/Int.antt =====
-- Signed counters, as INCR and DECR keep them.
use Prim.Native.Nat.{ℕ, zero, suc, ◌+◌}
use mathlib.Core.Path.{◌≡◌, refl}
use native.Mathlib.Omega.{arith}
use mathlib.Core.Bool.{Bool, false}
use sse_llm_streaming_servic.Base.Tests.{leb}

-- `negsuc n` is -(n + 1).
pub data ℤ : Type 0 where
  pos : ℕ → ℤ
  negsuc : ℕ → ℤ

abbrev pub succ : ℤ → ℤ
succ (pos n) = pos (n + 1)
succ (negsuc zero) = pos 0
succ (negsuc (suc n)) = negsuc n

abbrev pub pred : ℤ → ℤ
pred (pos zero) = negsuc 0
pred (pos (suc n)) = pos n
pred (negsuc n) = negsuc (n + 1)

-- `z >= n`
abbrev pub geb : ℤ → ℕ → Bool
geb (pos m) n = leb n m
geb (negsuc m) n = false

pub pred-succ : (z : ℤ) → pred (succ z) ≡ z
pred-succ (pos n) = ground arith
pred-succ (negsuc zero) = refl
pred-succ (negsuc (suc n)) = ground arith
