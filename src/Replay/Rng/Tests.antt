-- ===== src/Replay/Rng/Tests.antt =====
-- The reference vector of the source.
use blackswan_harness.Prelude.{ℕ, ◌%◌, ◌<◌, ◌≤◌, ◌≡◌, ◌↔◌, refl, true, ok, arith}
use blackswan_harness.Core.Error.{HarnessError}
use blackswan_harness.Core.Clock.{u64_mod}
use blackswan_harness.Replay.Rng.{from_seed, mix, next_u64, gen_range_u64}
use blackswan_harness.Replay.Rng.Cycle.{draws, draws_iff}
use blackswan_harness.Replay.Rng.Range.{gen_range_u64-bounds}

matches_reference_vector : (next_u64 (from_seed 1234567)).0 ≡ 6457827717110365317
unfolding next_u64 mix from_seed
matches_reference_vector = refl

small : (from_seed 42).state < u64_mod
unfolding from_seed
small = omega arith

full_period :
    (draws 3 (from_seed 42) ≡ draws 18446744073709551619 (from_seed 42))
    ↔ (3 % u64_mod ≡ 18446744073709551619 % u64_mod)
full_period = draws_iff 3 18446744073709551619 (from_seed 42) small

gen_range-bounds :
    (x : ℕ) × (gen_range_u64 {E = HarnessError} true 5 9 (from_seed 42)
      ≡ (ok x, (next_u64 (from_seed 42)).1))
    × (5 ≤ x)
    × (x < 9)
gen_range-bounds = gen_range_u64-bounds true 5 9 (from_seed 42) (omega arith) (omega arith)
