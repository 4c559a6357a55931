-- ===== src/Replay/Rng.antt =====
-- crates/replay/src/rng.rs: SplitMix64 on words of 64 bits. An `f64` in [0, 1) is the number of its
-- units of `2 ^ -53`: `next_f64` multiplies an integer below `2 ^ 53` by `2 ^ -53`, which is exact.
-- The comparison of such a number with any other `f64` is a parameter.
pub mod Cycle
pub mod Range
mod Tests
use Prim.Native.Nat.{bit_xor}
use blackswan_harness.Prelude.{
  ℕ, ◌+◌, ◌-◌, ◌*◌, ◌/◌, ◌%◌, ◌^◌, ◌==◌, ltb, not, ◌&&◌, ◌||◌, Bool, if◌then◌else◌, Outcome, ok,
  panic,
}
use blackswan_harness.Core.Clock.{u64_mod}

pub record DeterministicRng : Type 0 where
  pub state : ℕ

unfoldable pub from_seed : ℕ → DeterministicRng
from_seed seed = record { state = seed }

-- 0x9E3779B97F4A7C15, and the two multipliers.
abbrev pub gamma : ℕ
gamma = 11400714819323198485

abbrev mix_first : ℕ
mix_first = 13787848793156543929

abbrev mix_second : ℕ
mix_second = 10723151780598845931

-- `z ^ (z >> n)`.
abbrev xor_shift : ℕ → ℕ → ℕ
xor_shift n z = bit_xor z (z / 2 ^ n)

abbrev wrapping_mul : ℕ → ℕ → ℕ
wrapping_mul a b = (a * b) % u64_mod

-- What `next_u64` makes of the state.
pub mix : ℕ → ℕ
mix z =
    xor_shift 31 (wrapping_mul (xor_shift 27 (wrapping_mul (xor_shift 30 z) mix_first)) mix_second)

pub next_u64 : DeterministicRng → ℕ × DeterministicRng
next_u64 rng = let state = (rng.state + gamma) % u64_mod in (mix state, record { state = state })

pub next_f64 : DeterministicRng → ℕ × DeterministicRng
next_f64 rng = let (z, rng') = next_u64 rng in (z / 2 ^ 11, rng')

-- `below` says whether a number of units is `< probability`.
pub gen_bool : (ℕ → Bool) → DeterministicRng → Bool × DeterministicRng
gen_bool below rng = let (units, rng') = next_f64 rng in (below units, rng')

-- The flag says whether the build has debug assertions and overflow checks. Without them the
-- difference and the sum wrap; a remainder by zero panics in any build.
pub gen_range_u64 : {E : Type 0} → Bool → ℕ → ℕ → DeterministicRng → Outcome E ℕ × DeterministicRng
gen_range_u64 checked low high rng =
    let (z, rng') = next_u64 rng in
    let span = (high + u64_mod - low) % u64_mod in
    if checked && not (ltb low high)
    then (panic, rng)
    else if span == 0
    then (panic, rng')
    else (ok ((low + z % span) % u64_mod), rng')
