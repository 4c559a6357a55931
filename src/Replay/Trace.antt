-- ===== src/Replay/Trace.antt =====
-- crates/replay/src/trace.rs: the record of a run and the comparison of two.
pub mod Match
pub mod Store
use blackswan_harness.Prelude.{ℕ, Bool, true, false, ◌&&◌, Text, ◌==◌, List, [], ◌∷◌, ◌++◌, map}
use blackswan_harness.Core.Scenario.{ScenarioStep, step_eq}

pub record TraceEvent : Type 0 where
  pub step : ScenarioStep
  pub wall_ns : ℕ

pub record Trace : Type 0 where
  pub scenario_name : Text
  pub seed : ℕ
  pub events : List TraceEvent

unfoldable pub new : Text → ℕ → Trace
new scenario_name seed = record { scenario_name = scenario_name; seed = seed; events = [] }

unfoldable pub push : Trace → ScenarioStep → ℕ → Trace
push t step wall_ns = record t {
  events = t.events ++ record { step = step; wall_ns = wall_ns } ∷ [];
}

-- `Iterator::eq` of the steps of two event lists.
steps_eq : List TraceEvent → List TraceEvent → Bool
steps_eq [] [] = true
steps_eq [] (e ∷ es) = false
steps_eq (d ∷ ds) [] = false
steps_eq (d ∷ ds) (e ∷ es) = step_eq d.step e.step && steps_eq ds es

pub matches_schedule : Trace → Trace → Bool
unfolding steps_eq
matches_schedule t other = t.seed == other.seed && steps_eq t.events other.events

abbrev pub fired : Trace → List ScenarioStep
fired t = map (λ (e : TraceEvent). e.step) t.events
