-- ===== src/Replay/Trace/Match.antt =====
-- What `matches_schedule` compares.
use blackswan_harness.Prelude.{ℕ, true, List, [], ◌∷◌, ◌++◌, map, map-append, ◌≡◌, ◌↔◌, arith}
use blackswan_harness.Core.Scenario.{ScenarioStep, step_eq_iff}
use blackswan_harness.Replay.Trace.{TraceEvent, Trace, push, steps_eq, matches_schedule, fired}

abbrev of_events : List TraceEvent → List ScenarioStep
of_events = map (λ (e : TraceEvent). e.step)

steps_eq_iff : (ds es : List TraceEvent) → (steps_eq ds es ≡ true) ↔ (of_events ds ≡ of_events es)
unfolding steps_eq
steps_eq_iff [] [] = ground arith
steps_eq_iff [] (e ∷ es) = ground arith
steps_eq_iff (d ∷ ds) [] = ground arith
steps_eq_iff (d ∷ ds) (e ∷ es) = ground (arith, steps_eq_iff ds es, step_eq_iff d.step e.step)

-- Two traces match exactly when they have the same seed and the same steps in the same order: names
-- and recorded times are not compared.
pub matches_schedule_iff :
    (t u : Trace) → (matches_schedule t u ≡ true) ↔ ((t.seed ≡ u.seed) × (fired t ≡ fired u))
unfolding matches_schedule
matches_schedule_iff t u = ground (arith, steps_eq_iff t.events u.events)

pub fired-push : (t : Trace) (s : ScenarioStep) (w : ℕ) → fired (push t s w) ≡ fired t ++ s ∷ []
unfolding push
fired-push t s w = map-append _ t.events _
