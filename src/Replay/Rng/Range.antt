-- ===== src/Replay/Rng/Range.antt =====
-- Draws from a range, and the unit interval.
use blackswan_harness.Prelude.{
  ℕ, ◌+◌, ◌-◌, ◌%◌, ◌≤◌, ◌<◌, ◌==◌, lt→ltb, Bool, true, false, not, ◌&&◌, ok, ◌≡◌, refl, arith,
}
use blackswan_harness.Core.Clock.{u64_mod}
use blackswan_harness.Replay.Rng.{DeterministicRng, next_u64, gen_range_u64}

no_panic : (checked : Bool) → (checked && not true) ≡ false
no_panic true = refl
no_panic false = refl

-- What a draw from the range `low`, `high` of numbers of 64 bits gives: in any build a number that
-- is at least `low` and below `high`, and the generator behind one draw.
pub gen_range_u64-bounds :
    {E : Type 0} (checked : Bool) (low high : ℕ) (rng : DeterministicRng)
    → low < high
    → high < u64_mod
    → (x : ℕ) × (gen_range_u64 {E = E} checked low high rng ≡ (ok x, (next_u64 rng).1))
      × (low ≤ x)
      × (x < high)
unfolding gen_range_u64
gen_range_u64-bounds checked low high rng h k =
    let z = (next_u64 rng).0 in
    let span : (high + u64_mod - low) % u64_mod ≡ high - low = omega arith in
    let some_span : ((high - low) == 0) ≡ false = ground arith in
    let drawn : z % (high - low) < high - low = omega arith in
    (
      (low + (next_u64 rng).0 % (high - low)) % u64_mod,
      rw (gen_range_u64, lt→ltb low high h, no_panic checked, span, some_span),
      ground (arith, drawn),
      ground (arith, drawn),
    )
