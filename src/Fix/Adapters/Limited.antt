-- ===== src/Fix/Adapters/Limited.antt =====
-- What the throttle does to a whole stream of outbound messages, through the relay.
use blackswan_harness.Prelude.{
  ℕ, zero, suc, ◌+◌, ◌-◌, ◌<◌, Bool, true, ltb, ltb→lt, ltb-false, Bool-cases, Bytes, List, [], ◌∷◌,
  ◌++◌, length, take, All, ◌≡◌, refl, ap, ◌∙◌, inl, inr, arith,
}
use blackswan_harness.Core.Clock.{u64_mod}
use blackswan_harness.Core.Adapter.{outbound, is_inbound, RawMessage}
use blackswan_harness.Fix.Framing.Whole.{IsFramed}
use blackswan_harness.Fix.Proxy.{ReadResult, Sink, Relay, relay}
use blackswan_harness.Fix.Proxy.Transparent.{received, Keeps, IsCalm}
use blackswan_harness.Fix.Proxy.Messages.{concat}
use blackswan_harness.Fix.Proxy.Delivered.{Answers, delivered, relay-delivers}
use blackswan_harness.Fix.Adapters.Throttle.{throttle-counted}
use blackswan_harness.Fix.Adapters.{RateLimitThrottle, fix_rate_limit_throttle}

abbrev pub always : ℕ → Bool
always n = true

concat-take_none : (n : ℕ) → concat (take n []) ≡ []
unfolding concat
concat-take_none zero = refl
concat-take_none (suc n) = refl

shown : Bytes → RawMessage
shown m = record { bytes = m; direction = outbound }

throttle-Answers :
    (checks : Bool) (n : ℕ) (ms : List Bytes) (t : RateLimitThrottle)
    → t.count + length ms < u64_mod
    → Answers (fix_rate_limit_throttle checks) outbound always n ms t
unfolding Answers fix_rate_limit_throttle is_inbound shown
throttle-Answers checks n [] t fits = tt
throttle-Answers checks n (m ∷ ms) t fits =
    let counted = throttle-counted checks (shown m) t refl (omega arith) in
    (λ on h. cc (rw counted at h), rw counted (throttle-Answers checks (n + 1) ms _ (omega arith)))

delivered-take :
    (checks : Bool) (n : ℕ) (ms : List Bytes) (t : RateLimitThrottle)
    → t.count + length ms < u64_mod
    → delivered (fix_rate_limit_throttle checks) outbound always n ms t
      ≡ concat (take (t.threshold - t.count) ms)
unfolding delivered fix_rate_limit_throttle is_inbound concat shown
delivered-take checks n [] t fits = rw (concat-take_none (t.threshold - t.count))
delivered-take checks n (m ∷ ms) t fits =
    let seen = t.count + 1 in
    let counted = throttle-counted checks (shown m) t refl (omega arith) in
    let rest =
      delivered-take checks (n + 1) ms (record { threshold = t.threshold; count = seen })
        (omega arith) in
    elim (Bool-cases (ltb t.threshold seen)) [
      | inl over ↦
          let none_left : t.threshold - t.count ≡ 0 = omega (arith, ltb→lt _ _ over) in
          let none_later : t.threshold - seen ≡ 0 = omega (arith, ltb→lt _ _ over) in
          rw (counted, over, none_left) (rest ∙ ap (λ k. concat (take k ms)) none_later)
      | inr under ↦
          let one_more : t.threshold - t.count ≡ suc (t.threshold - seen) =
            omega (arith, ltb-false _ _ under) in
          rw (counted, under, one_more) (ap (λ l. m ++ l) rest)
    ]

module _ {D : Type 0} (checks : Bool) (sink : Sink D) (log : D → Bytes) (keeps : Keeps sink log)
    (sleeps : (ns : ℕ) (d : D) → log (sink.sleep ns d) ≡ log d) where
  -- With the throttle, and with the proxy enabled throughout, a relay of outbound messages writes the
  -- framed messages it reads up to the threshold, counted with those that the adapter has counted
  -- before, in their order and however they are cut into reads, and nothing of the later ones. Every
  -- write must succeed, and the count must stay below 2 ^ 64.
  pub throttle-delivers :
      (ms : List Bytes) (rounds : List (Bool × ReadResult)) (r : Relay RateLimitThrottle D)
      → All IsFramed ms
      → received rounds ≡ concat ms
      → r.adapter.count + length ms < u64_mod
      → let (end, rest, r') =
          relay checks (fix_rate_limit_throttle checks) sink outbound always rounds [] r in
        IsCalm end
        × (rest ≡ [])
        × (log r'.dst ≡ log r.dst ++ concat (take (r.adapter.threshold - r.adapter.count) ms))
  throttle-delivers ms rounds r framed whole fits =
      let (ends, empty, wrote) =
        relay-delivers checks (fix_rate_limit_throttle checks) sink log keeps sleeps outbound always
          ms rounds r framed (throttle-Answers checks r.loads ms r.adapter fits) whole in
      (
        ends,
        empty,
        wrote ∙ ap (λ l. log r.dst ++ l) (delivered-take checks r.loads ms r.adapter fits),
      )
