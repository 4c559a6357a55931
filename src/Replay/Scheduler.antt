-- ===== src/Replay/Scheduler.antt =====
-- crates/replay/src/scheduler.rs: steps come due as the virtual clock advances.
pub mod Due
mod Tests
use blackswan_harness.Prelude.{
  ℕ, ◌+◌, ◌-◌, Bool, leb, if◌then◌else◌, length, take, drop, List, [], ◌∷◌,
}
use blackswan_harness.Core.Clock.{VirtualClock, new_virtual, advance_clock}
use blackswan_harness.Core.Scenario.{ScenarioStep}
use blackswan_harness.Replay.Schedule.{ValidatedSchedule, steps}

pub record Scheduler : Type 0 where
  pub schedule : ValidatedSchedule
  pub clock : VirtualClock
  pub cursor : ℕ

unfoldable pub new : ValidatedSchedule → ℕ → Scheduler
unfolding new_virtual
new schedule start_ns = record { schedule = schedule; clock = new_virtual start_ns; cursor = 0 }

unfoldable pub now_ns : Scheduler → ℕ
now_ns s = s.clock.ns

-- The `while` loop of `advance`: its list holds the steps from the cursor on, so that its end is the
-- test `cursor < len`.
unfoldable pub skip_due : ℕ → List ScenarioStep → ℕ → ℕ
skip_due now [] cursor = cursor
skip_due now (step ∷ rest) cursor =
    let further = skip_due now rest (cursor + 1) in if leb step.at_ns now then further else cursor

-- The slice of the steps that came due, and the scheduler after the call.
unfoldable pub advance : ℕ → Scheduler → List ScenarioStep × Scheduler
unfolding advance_clock now_ns skip_due steps
advance delta_ns s =
    let clock' = advance_clock delta_ns s.clock in
    let start = s.cursor in
    let end = skip_due clock'.ns (drop start (steps s.schedule)) start in
    (take (end - start) (drop start (steps s.schedule)), record s { clock = clock'; cursor = end })

unfoldable pub is_finished : Scheduler → Bool
unfolding steps
is_finished s = leb (length (steps s.schedule)) s.cursor
