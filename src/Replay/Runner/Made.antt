-- ===== src/Replay/Runner/Made.antt =====
-- What `Runner::new` has checked.
use blackswan_harness.Prelude.{
  Bool-cases, Text, bytes_eq, bytes_eq_iff, ok, Outcome-cases, none, Option-cases, List, [], ◌∷◌,
  ◌≡◌, refl, inl, inr,
}
use blackswan_harness.Core.Scenario.{ScenarioStep}
use blackswan_harness.Core.Fault.{FaultContext}
use blackswan_harness.Replay.Schedule.{ValidatedSchedule, steps}
use blackswan_harness.Replay.Schedule.Spec.{actions_on}
use blackswan_harness.Replay.Runner.{Runner, new, check_registered}
use blackswan_harness.Replay.Runner.Table.{Registry, lookup}

-- A fault that has no injector has no steps.
pub nothing_on :
    {I : Type 0} (injectors : Registry I) (ss : List ScenarioStep) (f : Text)
    → check_registered injectors ss ≡ ok tt
    → lookup f injectors ≡ none
    → actions_on f ss ≡ []
unfolding check_registered actions_on
nothing_on injectors [] f h missing = refl
nothing_on injectors (s ∷ ss) f h missing = elim (Option-cases (lookup s.fault_id injectors)) [
  | inl e ↦ cc (rw (e, check_registered) at h)
  | inr (i, e) ↦ elim (Bool-cases (bytes_eq s.fault_id f)) [
    | inl same ↦ cc ((bytes_eq_iff s.fault_id f).0 same)
    | inr other ↦ rw other (nothing_on injectors ss f (rw (e, check_registered) at h) missing)
  ]
]

-- What `Runner::new` returns.
pub new-ok :
    {I : Type 0} (v : ValidatedSchedule) (injectors : Registry I) (ctx : FaultContext)
    (r : Runner I)
    → new v injectors ctx ≡ ok r
    → (check_registered injectors (steps v) ≡ ok tt)
      × (record { schedule = v; injectors = injectors; ctx = ctx } ≡ r)
unfolding new
new-ok v injectors ctx r h = elim (Outcome-cases (check_registered injectors (steps v))) [
  | inl (u, e) ↦ (e, cc (rw (e, new) at h))
  | inr (inl (x, e)) ↦ cc (rw (e, new) at h)
  | inr (inr e) ↦ cc (rw (e, new) at h)
]
