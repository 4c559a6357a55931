-- ===== src/Replay/Scheduler/Tests.antt =====
-- A scheduler that has come to its second step.
use blackswan_harness.Prelude.{codes, [], ◌∷◌, ◌++◌, ◌≡◌, arith}
use blackswan_harness.Core.Scenario.{arm, disarm}
use blackswan_harness.Replay.Schedule.{steps}
use blackswan_harness.Replay.Schedule.Spec.{IsOrdered}
use blackswan_harness.Replay.Scheduler.{Scheduler, now_ns, advance}
use blackswan_harness.Replay.Scheduler.Due.{pending, DueBy, After, advance-exact}

abbrev scheduler : Scheduler
scheduler = record {
  schedule = record {
    scenario = record {
      name = codes "demo";
      seed = 7;
      steps =
          record { at_ns = 10; fault_id = codes "loss"; action = arm }
          ∷ record { at_ns = 25; fault_id = codes "loss"; action = disarm }
          ∷ record { at_ns = 40; fault_id = codes "loss"; action = arm }
          ∷ [];
    };
  };
  clock = record { ns = 10 };
  cursor = 1;
}

scheduler-IsOrdered : IsOrdered 0 (steps scheduler.schedule)
unfolding steps
scheduler-IsOrdered = (omega arith, (omega arith, (omega arith, tt)))

advance-exact_example :
    DueBy (now_ns (advance 20 scheduler).1) (advance 20 scheduler).0
    × After (now_ns (advance 20 scheduler).1) (pending (advance 20 scheduler).1)
    × ((advance 20 scheduler).0 ++ pending (advance 20 scheduler).1 ≡ pending scheduler)
advance-exact_example = advance-exact 20 scheduler scheduler-IsOrdered
