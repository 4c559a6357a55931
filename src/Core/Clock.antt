-- ===== src/Core/Clock.antt =====
-- crates/core/src/clock.rs. A `u64` of nanoseconds wraps at `2 ^ 64`, as `fetch_add` does.
use blackswan_harness.Prelude.{ℕ, ◌+◌, ◌%◌, ◌^◌}

abbrev pub u64_mod : ℕ
u64_mod = 2 ^ 64

pub record VirtualClock : Type 0 where
  pub ns : ℕ

unfoldable pub new_virtual : ℕ → VirtualClock
new_virtual start_ns = record { ns = start_ns }

-- `VirtualClock::advance`.
unfoldable pub advance_clock : ℕ → VirtualClock → VirtualClock
advance_clock delta_ns c = record { ns = (c.ns + delta_ns) % u64_mod }

-- The two implementations of the trait.
pub data Clock : Type 0 where
  system_clock : Clock
  virtual_clock : VirtualClock → Clock

-- `now_ns`. The system's time, in nanoseconds since the epoch, is `os_now`: `as_nanos() as u64`.
unfoldable pub now_ns : ℕ → Clock → ℕ
now_ns os_now system_clock = os_now % u64_mod
now_ns os_now (virtual_clock c) = c.ns
