-- ===== src/Replay/Schedule.antt =====
-- crates/replay/src/schedule.rs: structural validation of a scenario. The `HashSet` of armed faults
-- is a list without repetitions; it is never iterated over.
pub mod Spec
pub mod Validity
mod Tests
use blackswan_harness.Prelude.{
  ℕ, zero, Bool, true, false, ◌||◌, Text, codes, bytes_eq, ltb, if◌then◌else◌, Outcome, ok, err,
  ◌>>=◌, List, [], ◌∷◌, ◌++◌,
}
use blackswan_harness.Prelude.Decimal.{to_string}
use blackswan_harness.Core.Error.{HarnessError, invalid_scenario}
use blackswan_harness.Core.Scenario.{Scenario, ScenarioStep, StepAction, arm, disarm}

pub record ValidatedSchedule : Type 0 where
  pub scenario : Scenario

unfoldable pub steps : ValidatedSchedule → List ScenarioStep
steps v = v.scenario.steps

pub out_of_order : ScenarioStep → ℕ → HarnessError
out_of_order step last_ns = invalid_scenario (
    codes "step for "
    ++ step.fault_id
    ++ codes " at "
    ++ to_string step.at_ns
    ++ codes "ns is out of order, previous step was at "
    ++ to_string last_ns
    ++ codes "ns")

pub armed_twice : ScenarioStep → HarnessError
armed_twice step =
    invalid_scenario
      (codes "fault " ++ step.fault_id ++ codes " armed twice without an intervening disarm")

pub never_armed : ScenarioStep → HarnessError
never_armed step =
    invalid_scenario (codes "fault " ++ step.fault_id ++ codes " disarmed but was never armed")

-- `HashSet::contains` and `HashSet::remove`; `insert` puts in front what is not there.
unfoldable pub contains : Text → List Text → Bool
contains f [] = false
contains f (g ∷ armed) = bytes_eq f g || contains f armed

unfoldable pub remove : Text → List Text → List Text
remove f [] = []
remove f (g ∷ armed) = if bytes_eq f g then remove f armed else g ∷ remove f armed

-- The `match` on the action: the set of armed faults after the step.
unfoldable pub track : ScenarioStep → StepAction → List Text → Outcome HarnessError (List Text)
track step arm armed =
    if contains step.fault_id armed then err (armed_twice step) else ok (step.fault_id ∷ armed)
track step disarm armed =
    if contains step.fault_id armed then ok (remove step.fault_id armed) else err (never_armed step)

-- One round of the loop.
unfoldable pub check_step : List Text → ℕ → ScenarioStep → Outcome HarnessError (List Text)
unfolding track
check_step armed last_ns step =
    if ltb step.at_ns last_ns then err (out_of_order step last_ns) else track step step.action armed

unfoldable pub check_steps : List Text → ℕ → List ScenarioStep → Outcome HarnessError (Unit {0})
check_steps armed last_ns [] = ok tt
check_steps armed last_ns (step ∷ rest) = do
  armed' ← check_step armed last_ns step
  check_steps armed' step.at_ns rest

unfoldable pub validate : Scenario → Outcome HarnessError ValidatedSchedule
validate scenario = do
  checked ← check_steps [] 0 scenario.steps
  ok (record { scenario = scenario })
