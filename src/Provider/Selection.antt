-- ===== src/Provider/Selection.antt =====
-- Which provider is chosen, on a Redis that answers: the circuits decide.
use sse_llm_streaming_servic.Base.{
  ◌≡◌, refl, sym, then_with, pure, ap, ◌∙◌, String, List, [], ◌∷◌, true, false, Option, none, some,
  Exn, Result, ok, raise, arith, string_discrete, if◌then◌else◌, Bool-cases, Result-cases, inl, inr,
}
use sse_llm_streaming_servic.Redis.{RedisClient, IsRedis, Value}
use sse_llm_streaming_servic.Circuit.{
  DistributedCircuitBreaker, closed, is_open, is_state, or_closed, state_key, get_state,
}
use sse_llm_streaming_servic.Provider.{
  World, on_factory, contains, excluded, given, get, first_healthy, get_healthy_provider,
  try_preferred, or_healthy, select_given, select_provider,
}
use sse_llm_streaming_servic.Provider.Factory.{closed_is_not_open, get-name, chosen, get-classes}

module _ {W : Type 0} (r : RedisClient W) (law : IsRedis r)
    (get_breaker : String → DistributedCircuitBreaker) (construct : String → Option Exn)
    (on : (name : String) → (get_breaker name).connected ≡ true) where
  open law use {content}

  -- The state that Redis keeps for a provider's circuit.
  abbrev pub circuit_state : World W → String → Value
  circuit_state s name = or_closed (content s.server (state_key (get_breaker name)))

  get_state_content :
      (name : String) (s : World W)
      → get_state r (get_breaker name) s.server ≡ (ok (circuit_state s name), s.server)
  unfolding get_state
  get_state_content name s =
      ground (arith, law.get_content (state_key (get_breaker name)) s.server, on name)

  first_healthy-step :
      (exclude : Option String) (name : String) (names : List String) (s : World W)
      → excluded exclude name ≡ false
      → first_healthy r get_breaker construct exclude (name ∷ names) s ≡ (
          if is_state closed (circuit_state s name)
          then then_with
              (on_factory r get_breaker construct (get construct name) s)
              (λ p. pure (some p))
          else first_healthy r get_breaker construct exclude names s)
  unfolding first_healthy
  first_healthy-step exclude name names s e =
      elim (Bool-cases (is_state closed (circuit_state s name))) [
        | inl shut ↦ rw (e, get_state_content name s, shut) refl
        | inr other ↦ rw (e, get_state_content name s, other) refl
      ]

  first_healthy-skip :
      (exclude : Option String) (name : String) (names : List String) (s : World W)
      → excluded exclude name ≡ true
      → first_healthy r get_breaker construct exclude (name ∷ names) s
        ≡ first_healthy r get_breaker construct exclude names s
  unfolding first_healthy
  first_healthy-skip exclude name names s e = rw e refl

  -- A provider that the loop returns is registered, and its circuit is closed.
  IsHealthy : World W → String → Type 0
  IsHealthy s p =
      (is_state closed (circuit_state s p) ≡ true) × (contains p s.factory.classes ≡ true)

  first_healthy-IsHealthy :
      (exclude : Option String) (names : List String) (s : World W) (p : String)
      → (first_healthy r get_breaker construct exclude names s).0 ≡ ok (some p)
      → IsHealthy s p
  unfolding first_healthy IsHealthy
  first_healthy-IsHealthy exclude [] s p e = cc e
  first_healthy-IsHealthy exclude (name ∷ names) s p e = elim (Bool-cases (excluded exclude name)) [
    | inl skipped ↦ first_healthy-IsHealthy exclude names s p (
        ap (λ (x : Result (Option String) × World W). x.0)
          (sym (first_healthy-skip exclude name names s skipped))
        ∙ e)
    | inr kept ↦
        let e' =
          ap (λ (x : Result (Option String) × World W). x.0)
            (sym (first_healthy-step exclude name names s kept))
          ∙ e in
        elim (Bool-cases (is_state closed (circuit_state s name))) [
          | inl shut ↦
              let made =
                chosen (on_factory r get_breaker construct (get construct name) s) p
                  (rw shut at e') in
              let (same, known) = get-name construct name p s.factory made in rw same (shut, known)
          | inr other ↦ first_healthy-IsHealthy exclude names s p (rw other at e')
        ]
  ]

  -- What trying the preferred provider answers, and the state it leaves.
  prefers : World W → Result String → Option String
  prefers s (ok q) = if is_state is_open (circuit_state s q) then none else some q
  prefers s (raise e) = none

  try_preferred_lem :
      (name : String) (s : World W)
      → try_preferred r get_breaker construct name s ≡ (
        ok (prefers s (get construct name s.factory).0),
        record s { factory = (get construct name s.factory).1 },
      )
  unfolding try_preferred prefers
  try_preferred_lem name s = elim (Result-cases (get construct name s.factory).0) [
    | inr (x, e) ↦ rw e refl
    | inl (q, e) ↦ elim (Bool-cases (is_state is_open (circuit_state s q))) [
      | inl is_bad ↦ rw (e, get_state_content q s, is_bad) refl
      | inr is_good ↦ rw (e, get_state_content q s, is_good) refl
    ]
  ]

  prefers-some :
      (s : World W) (x : Result String) (p : String)
      → prefers s x ≡ some p
      → (x ≡ ok p) × (is_state is_open (circuit_state s p) ≡ false)
  unfolding prefers
  prefers-some s (ok q) p e = elim (Bool-cases (is_state is_open (circuit_state s q))) [
    | inl is_bad ↦ absurd (cc (rw is_bad at e))
    | inr is_good ↦ let same : q ≡ p = cc (rw is_good at e) in (ap ok same, rw (sym same) is_good)
  ]
  prefers-some s (raise x) p e = cc e

  or_healthy-circuit_state :
      (name : String) (s : World W) (p : String) (choice : Option String)
      → prefers s (get construct name s.factory).0 ≡ choice
      → (or_healthy r get_breaker construct name choice
          (record s { factory = (get construct name s.factory).1 })).0
        ≡ ok (some p)
      → (is_state is_open (circuit_state s p) ≡ false) × (contains p s.factory.classes ≡ true)
  unfolding or_healthy get_healthy_provider IsHealthy
  or_healthy-circuit_state name s p none nobody e =
      let s' : World W = record s { factory = (get construct name s.factory).1 } in
      let (shut, known) = first_healthy-IsHealthy (some name) s'.factory.classes s' p e in
      (
        closed_is_not_open (circuit_state s p) shut,
        rw (sym (get-classes construct name s.factory)) known,
      )
  or_healthy-circuit_state name s p (some q) taken e =
      let same : q ≡ p = cc e in
      let (made, good) = prefers-some s (get construct name s.factory).0 q taken in
      let (is_name, known) = get-name construct name q s.factory made in
      rw (sym same) (good, rw is_name known)

  select_given-circuit_state :
      (preferred : Option String) (s : World W) (p : String)
      → (select_given r get_breaker construct preferred s).0 ≡ ok (some p)
      → (is_state is_open (circuit_state s p) ≡ false) × (contains p s.factory.classes ≡ true)
  unfolding select_given get_healthy_provider IsHealthy
  select_given-circuit_state none s p e =
      let (shut, known) = first_healthy-IsHealthy none s.factory.classes s p e in
      (closed_is_not_open (circuit_state s p) shut, known)
  select_given-circuit_state (some name) s p e =
      or_healthy-circuit_state name s p (prefers s (get construct name s.factory).0) refl
        (rw (try_preferred_lem name s) at e)

  -- On a Redis that answers, a provider that is chosen is registered, and its circuit is not open,
  -- whatever the time since its last failure.
  pub select_provider-circuit_state :
      (preferred : Option String) (s : World W) (p : String)
      → (select_provider r get_breaker construct preferred s).0 ≡ ok (some p)
      → (is_state is_open (circuit_state s p) ≡ false) × (contains p s.factory.classes ≡ true)
  unfolding select_provider
  select_provider-circuit_state preferred s p e = select_given-circuit_state (given preferred) s p e

  never_none : (x : Result String × World W) → (then_with x (λ q. pure (some q))).0 ≡ ok none → ⊥
  never_none (ok q, s) e = cc e
  never_none (raise y, s) e = cc e

  -- When the loop ends with nobody, no provider that it may choose has a closed circuit.
  first_healthy-none :
      (exclude : Option String) (names : List String) (s : World W) (name : String)
      → (first_healthy r get_breaker construct exclude names s).0 ≡ ok none
      → contains name names ≡ true
      → excluded exclude name ≡ false
      → is_state closed (circuit_state s name) ≡ false
  unfolding contains
  first_healthy-none exclude [] s name e there kept = cc there
  first_healthy-none exclude (x ∷ xs) s name e there kept =
      let rest : (first_healthy r get_breaker construct exclude xs s).0 ≡ ok none
          → contains name xs ≡ true
          → is_state closed (circuit_state s name) ≡ false =
        λ e' there'. first_healthy-none exclude xs s name e' there' kept in
      elim (string_discrete x name) [
        | yes p ↦
            let kept_x : excluded exclude x ≡ false = rw p kept in
            elim (Bool-cases (is_state closed (circuit_state s x))) [
              | inl shut ↦ absurd (
                  never_none (on_factory r get_breaker construct (get construct x) s)
                    (rw (first_healthy-step exclude x xs s kept_x, shut) at e))
              | inr other ↦ rw (sym p) other
            ]
        | no q ↦
            let there' : contains name xs ≡ true = ground arith in
            elim (Bool-cases (excluded exclude x)) [
              | inl skipped ↦ rest (rw (first_healthy-skip exclude x xs s skipped) at e) there'
              | inr kept_x ↦ elim (Bool-cases (is_state closed (circuit_state s x))) [
                | inl shut ↦ absurd (
                    never_none (on_factory r get_breaker construct (get construct x) s)
                      (rw (first_healthy-step exclude x xs s kept_x, shut) at e))
                | inr other ↦
                    rest (rw (first_healthy-step exclude x xs s kept_x, other) at e) there'
              ]
            ]
      ]

  or_healthy-none :
      (preferred : String) (s : World W) (choice : Option String) (name : String)
      → (or_healthy r get_breaker construct preferred choice
          (record s { factory = (get construct preferred s.factory).1 })).0
        ≡ ok none
      → contains name s.factory.classes ≡ true
      → excluded (some preferred) name ≡ false
      → is_state closed (circuit_state s name) ≡ false
  unfolding or_healthy get_healthy_provider
  or_healthy-none preferred s (some q) name e known kept = cc e
  or_healthy-none preferred s none name e known kept =
      let s' : World W = record s { factory = (get construct preferred s.factory).1 } in
      first_healthy-none (some preferred) s'.factory.classes s' name e
        (rw (get-classes construct preferred s.factory) known) kept

  select_given-none :
      (preferred : Option String) (s : World W) (name : String)
      → (select_given r get_breaker construct preferred s).0 ≡ ok none
      → contains name s.factory.classes ≡ true
      → excluded preferred name ≡ false
      → is_state closed (circuit_state s name) ≡ false
  unfolding select_given get_healthy_provider
  select_given-none none s name e known kept =
      first_healthy-none none s.factory.classes s name e known kept
  select_given-none (some preferred) s name e known kept =
      or_healthy-none preferred s (prefers s (get construct preferred s.factory).0) name
        (rw (try_preferred_lem preferred s) at e) known kept

  -- On a Redis that answers, when nobody is chosen, no registered provider but the preferred one
  -- has a closed circuit.
  pub select_provider-none :
      (preferred : Option String) (s : World W) (name : String)
      → (select_provider r get_breaker construct preferred s).0 ≡ ok none
      → contains name s.factory.classes ≡ true
      → excluded (given preferred) name ≡ false
      → is_state closed (circuit_state s name) ≡ false
  unfolding select_provider
  select_provider-none preferred s name e known kept =
      select_given-none (given preferred) s name e known kept
