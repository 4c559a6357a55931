-- ===== src/Replay/Schedule/Spec.antt =====
-- What a structurally sound schedule is, with no set of armed faults: the times do not decrease, and
-- the actions on each fault alternate, beginning with an arm.
use blackswan_harness.Prelude.{
  ℕ, Bool, true, false, ◌≤◌, Text, bytes_eq, if◌then◌else◌, List, [], ◌∷◌,
}
use blackswan_harness.Core.Scenario.{ScenarioStep, StepAction, arm, disarm}

abbrev pub IsOrdered : ℕ → List ScenarioStep → Type 0
IsOrdered last [] = Unit
IsOrdered last (s ∷ ss) = (last ≤ s.at_ns) × IsOrdered s.at_ns ss

-- The actions on one fault, in the order of the schedule.
unfoldable pub actions_on : Text → List ScenarioStep → List StepAction
actions_on f [] = []
actions_on f (s ∷ ss) =
    if bytes_eq s.fault_id f then s.action ∷ actions_on f ss else actions_on f ss

-- The first flag says whether the fault is armed before the actions.
abbrev pub Alternates : Bool → List StepAction → Type 0
Alternates b [] = Unit
Alternates true (arm ∷ acts) = ⊥
Alternates false (arm ∷ acts) = Alternates true acts
Alternates true (disarm ∷ acts) = Alternates false acts
Alternates false (disarm ∷ acts) = ⊥

pub record IsSound (ss : List ScenarioStep) : Type 0 where
  pub ordered : IsOrdered 0 ss
  pub alternating : (f : Text) → Alternates false (actions_on f ss)
