-- ===== src/Core/Scenario.antt =====
-- crates/core/src/scenario.rs.
use blackswan_harness.Prelude.{
  ℕ, Bool, true, false, ◌&&◌, Text, bytes_eq, bytes_eq_iff, ◌==◌, ◌≡◌, ◌↔◌, List, arith,
}

pub data StepAction : Type 0 where
  arm disarm : StepAction

pub record ScenarioStep : Type 0 where
  pub at_ns : ℕ
  pub fault_id : Text
  pub action : StepAction

pub record Scenario : Type 0 where
  pub name : Text
  pub seed : ℕ
  pub steps : List ScenarioStep

-- The derived `==` on actions and on steps.
unfoldable pub action_eq : StepAction → StepAction → Bool
action_eq arm arm = true
action_eq arm disarm = false
action_eq disarm arm = false
action_eq disarm disarm = true

unfoldable pub step_eq : ScenarioStep → ScenarioStep → Bool
unfolding action_eq
step_eq s t = s.at_ns == t.at_ns && bytes_eq s.fault_id t.fault_id && action_eq s.action t.action

pub step_eq_iff : (s t : ScenarioStep) → (step_eq s t ≡ true) ↔ (s ≡ t)
unfolding step_eq
step_eq_iff s t = ground (arith, bytes_eq_iff s.fault_id t.fault_id)
