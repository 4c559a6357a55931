-- ===== src/Fix/Adapters/Throttle.antt =====
-- How many messages the throttle lets through.
use blackswan_harness.Prelude.{
  ℕ, ◌+◌, ◌-◌, ◌%◌, ◌<◌, Bool, true, false, if◌then◌else◌, Bool-cases, ltb, ltb→lt, ltb-false,
  leb-eq-false, refl, Outcome, ok, List, [], ◌∷◌, ◌≡◌, inl, inr, arith,
}
use blackswan_harness.Core.Error.{HarnessError}
use blackswan_harness.Core.Clock.{u64_mod}
use blackswan_harness.Core.Adapter.{
  is_inbound, RawMessage, InterceptAction, forward, discard, ProtocolAdapter,
}
use blackswan_harness.Fix.Adapters.{
  RateLimitThrottle, new_throttle, throttle_intercept, fix_rate_limit_throttle,
}

-- What an adapter answers to messages that come one behind the other.
unfoldable pub intercept_all :
    {A : Type 0}
    → ProtocolAdapter A
    → List RawMessage
    → A
    → List (Outcome HarnessError InterceptAction)
intercept_all ops [] a = []
intercept_all ops (m ∷ ms) a = let (r, a') = ops.intercept m a in r ∷ intercept_all ops ms a'

abbrev is_discard : Outcome HarnessError InterceptAction → Bool
is_discard (ok discard) = true
is_discard _ = false

pub dropped : List (Outcome HarnessError InterceptAction) → ℕ
dropped [] = 0
dropped (r ∷ rs) = (if is_discard r then 1 else 0) + dropped rs

unfoldable pub outbound_count : List RawMessage → ℕ
outbound_count [] = 0
outbound_count (m ∷ ms) = (if is_inbound m.direction then 0 else 1) + outbound_count ms

throttle-inbound :
    (checks : Bool) (m : RawMessage) (t : RateLimitThrottle)
    → is_inbound m.direction ≡ true
    → throttle_intercept checks m t ≡ (ok forward, t)
unfolding throttle_intercept
throttle-inbound checks m t inward = rw (inward, throttle_intercept) refl

-- Below the last count, a message is counted and compared in both builds.
pub throttle-counted :
    (checks : Bool) (m : RawMessage) (t : RateLimitThrottle)
    → is_inbound m.direction ≡ false
    → t.count + 1 < u64_mod
    → throttle_intercept checks m t ≡ (
      ok (if ltb t.threshold (t.count + 1) then discard else forward),
      record { threshold = t.threshold; count = t.count + 1 },
    )
unfolding throttle_intercept
throttle-counted true m t outward fits =
    let whole : (t.count + 1) % u64_mod ≡ t.count + 1 = omega arith in
    rw (outward, throttle_intercept, whole, leb-eq-false u64_mod (t.count + 1) fits) refl
throttle-counted false m t outward fits =
    let whole : (t.count + 1) % u64_mod ≡ t.count + 1 = omega arith in
    rw (outward, throttle_intercept, whole) refl

dropped_from :
    (checks : Bool) (ms : List RawMessage) (t : RateLimitThrottle)
    → t.count + outbound_count ms < u64_mod
    → dropped (intercept_all (fix_rate_limit_throttle checks) ms t)
      ≡ (t.count + outbound_count ms - t.threshold) - (t.count - t.threshold)
unfolding intercept_all dropped outbound_count fix_rate_limit_throttle
dropped_from checks [] t fits = omega arith
dropped_from checks (m ∷ ms) t fits = elim (Bool-cases (is_inbound m.direction)) [
  | inl inward ↦
      let rest = dropped_from checks ms t (omega (arith, rw inward at fits)) in
      rw (throttle-inbound checks m t inward, inward) (omega (arith, rest))
  | inr outward ↦
      let seen = t.count + 1 in
      let room : seen < u64_mod = omega (arith, rw outward at fits) in
      let rest =
        dropped_from checks ms (record { threshold = t.threshold; count = seen })
          (omega (arith, rw outward at fits)) in
      elim (Bool-cases (ltb t.threshold seen)) [
        | inl over ↦
            rw (throttle-counted checks m t outward room, outward, over)
              (omega (arith, rest, ltb→lt _ _ over))
        | inr under ↦
            rw (throttle-counted checks m t outward room, outward, under)
              (omega (arith, rest, ltb-false _ _ under))
      ]
]

-- A new throttle drops, of any messages in both directions, as many as there are outbound ones beyond
-- its threshold, if their number stays below 2 ^ 64.
pub throttle-dropped :
    (checks : Bool) (threshold : ℕ) (ms : List RawMessage)
    → outbound_count ms < u64_mod
    → dropped (intercept_all (fix_rate_limit_throttle checks) ms (new_throttle threshold))
      ≡ outbound_count ms - threshold
unfolding new_throttle
throttle-dropped checks threshold ms fits =
    omega (arith, dropped_from checks ms (new_throttle threshold) (omega arith))
