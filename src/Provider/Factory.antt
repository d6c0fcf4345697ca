-- ===== src/Provider/Factory.antt =====
-- What the factory answers, and the states of a circuit told apart.
use sse_llm_streaming_servic.Base.{
  ◌≡◌, refl, then_with, pure, String, true, false, Option, some, Exn, Result, ok, raise, arith,
  string_discrete,
}
use sse_llm_streaming_servic.Redis.{Value, word, number, stamp}
use sse_llm_streaming_servic.Circuit.{closed, is_open, value, is_state}
use sse_llm_streaming_servic.Provider.{ProviderFactory, World, contains, get}

pub closed_is_not_open : (v : Value) → is_state closed v ≡ true → is_state is_open v ≡ false
unfolding is_state value
closed_is_not_open (word t) e = elim (string_discrete t "closed") [
  | yes p ↦ elim (string_discrete t "open") [ yes q ↦ cc (p, q) | no q ↦ ground arith ]
  | no p ↦ ground arith
]
closed_is_not_open (number n) e = refl
closed_is_not_open (stamp t) e = refl

pub get-name :
    (construct : String → Option Exn) (name p : String) (f : ProviderFactory)
    → (get construct name f).0 ≡ ok p
    → (p ≡ name) × (contains name f.classes ≡ true)
unfolding get
get-name construct name p f e = ground arith

pub chosen :
    {W : Type 0} (x : Result String × World W) (p : String)
    → (then_with x (λ q. pure (some q))).0 ≡ ok (some p)
    → x.0 ≡ ok p
chosen (ok q, s) p e = cc e
chosen (raise x, s) p e = cc e

pub get-classes :
    (construct : String → Option Exn) (name : String) (f : ProviderFactory)
    → (get construct name f).1.classes ≡ f.classes
unfolding get
get-classes construct name f = ground arith
