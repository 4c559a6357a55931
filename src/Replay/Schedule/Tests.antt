-- ===== src/Replay/Schedule/Tests.antt =====
-- Two scenarios: a sound one, and one that arms a fault twice.
use blackswan_harness.Prelude.{Text, codes, ok, err, [], ◌∷◌, ◌≡◌, ◌↔◌, bytes_eq}
use blackswan_harness.Core.Error.{invalid_scenario}
use blackswan_harness.Core.Scenario.{Scenario, arm, disarm}
use blackswan_harness.Replay.Schedule.{validate}
use blackswan_harness.Replay.Schedule.Spec.{IsSound, actions_on}
use blackswan_harness.Replay.Schedule.Validity.{validate-IsSound, validate-rejects}

abbrev loss : Text
loss = codes "loss"

abbrev sound : Scenario
sound = record {
  name = codes "demo";
  seed = 7;
  steps =
      record { at_ns = 10; fault_id = loss; action = arm }
      ∷ record { at_ns = 25; fault_id = loss; action = disarm }
      ∷ [];
}

abbrev twice : Scenario
twice = record {
  name = codes "demo";
  seed = 7;
  steps =
      record { at_ns = 10; fault_id = loss; action = arm }
      ∷ record { at_ns = 25; fault_id = loss; action = arm }
      ∷ [];
}

validate-IsSound_example : (validate sound ≡ ok (record { scenario = sound })) ↔ IsSound sound.steps
validate-IsSound_example = validate-IsSound sound

twice-unsound : ¬ IsSound twice.steps
unfolding actions_on bytes_eq
twice-unsound h = h.alternating loss

twice-rejected : (why : Text) × (validate twice ≡ err (invalid_scenario why))
twice-rejected = validate-rejects twice twice-unsound
