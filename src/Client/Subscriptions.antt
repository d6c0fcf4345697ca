-- ===== src/Client/Subscriptions.antt =====
-- Which channels a client listens to, before, during and after its streams.
use sse_llm_streaming_servic.Base.{
  ℕ, ◌+◌, ◌≡◌, refl, sym, ap, ◌∙◌, String, List, [], ◌∷◌, ◌++◌, Option, none, some, M, Exn, Result,
  ok, raise, generator_exit, ◌==◌, arith, if◌then◌else◌, Bool-cases, inl, inr,
}
use sse_llm_streaming_servic.Request.{QueuedStreamingRequest, Stored, to_dict}
use sse_llm_streaming_servic.Relay.{
  StreamConfig, Orjson, HeartbeatManager, Poll, message_loop, format_error_event,
}
use sse_llm_streaming_servic.Worker.{channel}
use sse_llm_streaming_servic.Client.{
  PubSub, StreamSubscriber, State, on_server, subscribe, get_message, unsubscribe,
}

-- A server that answers: which channel each object listens to, and the next object.
pub record IsPubSub {W : Type 0} (redis : PubSub W) : Type 0 where
  pub listening : W → ℕ → Option String
  pub next : W → ℕ
  pub opened : W → W
  pub joined : ℕ → String → W → W
  pub left : ℕ → String → W → W
  pub closed : ℕ → W → W
  pub pubsub_ok : (w : W) → redis.pubsub w ≡ (ok (next w), opened w)
  pub subscribe_ok : (p : ℕ) (k : String) (w : W) → redis.subscribe p k w ≡ (ok tt, joined p k w)
  pub unsubscribe_ok : (p : ℕ) (k : String) (w : W) → redis.unsubscribe p k w ≡ (ok tt, left p k w)
  pub close_ok : (p : ℕ) (w : W) → redis.close p w ≡ (ok tt, closed p w)
  pub next_silent : (w : W) → listening w (next w) ≡ none
  pub opened_listening : (w : W) (j : ℕ) → listening (opened w) j ≡ listening w j
  pub joined_listening :
      (p : ℕ) (k : String) (w : W) (j : ℕ)
      → listening (joined p k w) j ≡ (if p == j then some k else listening w j)
  pub left_listening :
      (p : ℕ) (k : String) (w : W) (j : ℕ)
      → listening (left p k w) j ≡ (if p == j then none else listening w j)
  pub closed_listening :
      (p : ℕ) (w : W) (j : ℕ) → listening (closed p w) j ≡ (if p == j then none else listening w j)

module _ {W Q : Type 0} (redis : PubSub W) (law : IsPubSub redis) where
  -- The state after a subscription.
  abbrev pub subscribed : String → State W Q → State W Q
  subscribed r s = record s {
    subscriber = record { pubsub = some (law.next s.server); channel_name = some (channel r) };
    server = law.joined (law.next s.server) (channel r) (law.opened s.server);
  }

  subscribe_lem : (r : String) (s : State W Q) → subscribe redis r s ≡ (ok tt, subscribed r s)
  unfolding subscribe
  subscribe_lem r s =
      rw
        (
          law.pubsub_ok s.server,
          law.subscribe_ok (law.next s.server) (channel r) (law.opened s.server),
        )
        refl

  abbrev pub unsubscribed : ℕ → String → State W Q → State W Q
  unsubscribed p k s = record s { server = law.closed p (law.left p k s.server) }

  unsubscribe_lem :
      (p : ℕ) (k : String) (s : State W Q)
      → s.subscriber ≡ record { pubsub = some p; channel_name = some k }
      → unsubscribe redis s ≡ (ok tt, unsubscribed p k s)
  unfolding unsubscribe
  unsubscribe_lem p k s e =
      rw
        (
          ap (λ (u : StreamSubscriber). u.pubsub) e,
          ap (λ (u : StreamSubscriber). u.channel_name) e,
          law.unsubscribe_ok p k s.server,
          law.close_ok p (law.left p k s.server),
        )
        refl

module _ {W : Type 0} (redis : PubSub W) (law : IsPubSub redis) where
  unsubscribed-listening :
      (p : ℕ) (k : String) (w : W) (j : ℕ)
      → law.listening (law.closed p (law.left p k w)) j
        ≡ (if p == j then none else law.listening w j)
  unsubscribed-listening p k w j =
      ground (arith, law.closed_listening p (law.left p k w) j, law.left_listening p k w j)

  joined_self : (p : ℕ) (k : String) (w : W) → law.listening (law.joined p k w) p ≡ some k
  joined_self p k w = ground (arith, law.joined_listening p k w p)

  -- A second object that leaves twice does not take the first with it.
  left_alone :
      (k1 k2 : String) (w : W)
      → let w1 = law.joined (law.next w) k1 (law.opened w) in
        let p2 = law.next w1 in
        law.listening
          (law.closed p2
            (law.left p2 k2 (law.closed p2 (law.left p2 k2 (law.joined p2 k2 (law.opened w1))))))
          (law.next w)
        ≡ some k1
  left_alone k1 k2 w =
      let p1 : ℕ = law.next w in
      let w1 : W = law.joined p1 k1 (law.opened w) in
      let p2 : ℕ = law.next w1 in
      let w2 : W = law.joined p2 k2 (law.opened w1) in
      elim (Bool-cases (p2 == p1)) [
        | inl same ↦
            let is_first : p2 ≡ p1 = ground arith in
            absurd (
              cc (
                sym (joined_self p1 k1 (law.opened w))
                ∙ ap (law.listening w1) (sym is_first)
                ∙ law.next_silent w1))
        | inr other ↦
            unsubscribed-listening p2 k2 (law.closed p2 (law.left p2 k2 w2)) p1
            ∙ rw other (
                unsubscribed-listening p2 k2 w2 p1
                ∙ rw other (
                    law.joined_listening p2 k2 (law.opened w1) p1
                    ∙ rw other (law.opened_listening w1 p1 ∙ joined_self p1 k1 (law.opened w))))
      ]

module _ {W Q : Type 0} (redis : PubSub W) (law : IsPubSub redis)
    (produce : Stored → M Q String) where
  module _ (json : Orjson) (describe : Exn → String) (c : StreamConfig) (h : HeartbeatManager) where
    -- What the client is told when the queue took the request, and when it did not.
    unfoldable pub told : Result String → List Poll → List String
    told (ok id) polls = (message_loop json c h polls).0
    told (raise generator_exit) polls = []
    told (raise e) polls = format_error_event json (describe e) ∷ []

    -- How the stream ends: it returns, unless its consumer closed it before the loop had ended.
    unfoldable pub ends : Result String → List Poll → Result (Unit {0})
    ends (ok id) polls = if (message_loop json c h polls).1 then ok tt else raise generator_exit
    ends (raise generator_exit) polls = raise generator_exit
    ends (raise e) polls = ok tt

    unfoldable pub tries : Result String → ℕ → ℕ
    tries (ok id) n = n + 1
    tries (raise e) n = n

    -- The state before the subscription is given back.
    abbrev heard : QueuedStreamingRequest → List Poll → State W Q → State W Q
    heard request polls s =
        let s1 : State W Q = subscribed redis law request.request_id s in
        let (x, q) = produce (to_dict request) s.queue in
        record s1 { queue = q; attempts = tries x s.attempts; emitted = s.emitted ++ told x polls }

-- Two streams on one subscriber.
module _ {W Q : Type 0} (redis : PubSub W) (law : IsPubSub redis) where
  -- The state after two subscriptions on one subscriber, and the two objects.
  abbrev both : String → String → State W Q → State W Q
  both r1 r2 s = subscribed redis law r2 (subscribed redis law r1 s)

  -- When a second request subscribes on the subscriber of the first before that has ended, the first one's
  -- reads go to the object that listens to the channel of the second; and after both have unsubscribed, the object
  -- of the first still listens to its channel.
  pub subscribe-subscribe :
      (r1 r2 : String) (timeout : ℕ) (s : State W Q)
      → let s2 = (subscribe redis r2 (subscribe redis r1 s).1).1 in
        let p1 = law.next s.server in
        let p2 = law.next (subscribe redis r1 s).1.server in
        (get_message redis timeout s2 ≡ on_server (redis.get_message p2 timeout) s2)
        × (law.listening s2.server p2 ≡ some (channel r2))
        × (law.listening (unsubscribe redis (unsubscribe redis s2).1).1.server p1
            ≡ some (channel r1))
  unfolding get_message
  subscribe-subscribe r1 r2 timeout s =
      let s1 : State W Q = subscribed redis law r1 s in
      let s2 : State W Q = subscribed redis law r2 s1 in
      let p2 : ℕ = law.next s1.server in
      let s3 : State W Q = unsubscribed redis law p2 (channel r2) s2 in
      rw (subscribe_lem redis law r1 s, subscribe_lem redis law r2 s1)
        (
          refl,
          joined_self redis law p2 (channel r2) (law.opened s1.server),
          rw
              (
                unsubscribe_lem redis law p2 (channel r2) s2 refl,
                unsubscribe_lem redis law p2 (channel r2) s3 refl,
              )
              (left_alone redis law (channel r1) (channel r2) s.server),
        )
