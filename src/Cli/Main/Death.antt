-- ===== src/Cli/Main/Death.antt =====
-- What a process that ends in `die` leaves armed.
use blackswan_harness.Prelude.{
  ℕ, Bool, Text, Outcome, ok, err, panic, ◌≡◌, ◌≢◌, refl, sym, ap, ◌∙◌, inl, inr, ◌⊎◌, some,
  Option-cases, List, ◌∷◌, ◌++◌, codes,
}
use blackswan_harness.Core.Error.{HarnessError}
use blackswan_harness.Core.Fault.{FaultInjector}
use blackswan_harness.Core.Scenario.{Scenario, ScenarioStep, StepAction}
use blackswan_harness.Replay.Schedule.{ValidatedSchedule, steps, validate}
use blackswan_harness.Replay.Schedule.Spec.{actions_on}
use blackswan_harness.Replay.Schedule.Validity.{validate-ok}
use blackswan_harness.Replay.Trace.{Trace, fired}
use blackswan_harness.Replay.Runner.{Runner, Progress, new, run_inner, teardown, is_armed}
use blackswan_harness.Replay.Runner.Safety.{flag_after}
use blackswan_harness.Replay.Runner.Made.{new-ok}
use blackswan_harness.Replay.Runner.Failure.{run_inner-Stopped}
use blackswan_harness.Replay.Runner.Table.{Registry}
use blackswan_harness.Cli.Config.{Config}
use blackswan_harness.Cli.Build.{Hosts, AnyInjector, dyn_injector}
use blackswan_harness.Cli.Build.Contract.{dyn_injector-IsFaultInjector}
use blackswan_harness.Cli.Main.Execute.{
  Shell, died, load_config, context, behind_trace, finish, execute_config, execute_scenario,
}
use blackswan_harness.Cli.Main.Steps.{scenario_of, built, execute_config-runs, execute_config-cases}

module _ {W B P : Type 0} (hosts : Hosts W B P) (shell : Shell W) where
  behind_trace-ne-died :
      (t : Trace) (dropped : Outcome HarnessError (Unit {0}) × Registry (AnyInjector B P) × W)
      {why : Text} {left : Registry (AnyInjector B P)} {w : W}
      → behind_trace shell (dyn_injector hosts) t dropped ≢ died why left w
  unfolding behind_trace
  behind_trace-ne-died t (ok _, left, w) h = cc
  behind_trace-ne-died t (err _, left, w) h = cc
  behind_trace-ne-died t (panic, left, w) h = cc

  -- A run that ends in `die` has failed, and its injectors are as the failure left them.
  finish-died :
      (ended : Outcome HarnessError Trace × Progress W (AnyInjector B P)) {why : Text}
      {left : Registry (AnyInjector B P)} {w : W}
      → finish shell (dyn_injector hosts) ended ≡ died why left w
      → (x : HarnessError) × (ended ≡ (err x, ended.1))
        × (ended.1.injectors ≡ left)
        × (ended.1.world ≡ w)
        × (why ≡ codes "run failed: " ++ shell.debug x)
  unfolding finish
  finish-died (ok t, p) h =
      absurd (behind_trace-ne-died t (teardown (dyn_injector hosts) p.injectors p.world) h)
  finish-died (err x, p) h = (x, refl, cc, cc, cc)
  finish-died (panic, p) h = cc

-- A run of the config that failed: from injectors that are all fresh, it carried out the steps before
-- one of the schedule, which are those that it recorded, and the process keeps the injectors and the
-- world as the failure left them.
pub record Interrupted {W B P : Type 0} (hosts : Hosts W B P) (shell : Shell W) (fuel : ℕ)
    (cfg : Config) (tick : ℕ) (realtime : Bool) (w : W) (why f : Text)
    (left : Registry (AnyInjector B P)) (w' : W) : Type 0 where
  pub schedule : ValidatedSchedule
  pub runner : Runner (AnyInjector B P)
  pub error : HarnessError
  pub progress : Progress W (AnyInjector B P)
  pub valid : validate (scenario_of cfg) ≡ ok schedule
  pub set_up : new schedule (built cfg.injectors) (context cfg) ≡ ok runner
  pub ran :
      run_inner (dyn_injector hosts) shell.sleep fuel tick realtime runner w
      ≡ some (err error, progress)
  pub message : why ≡ codes "run failed: " ++ shell.debug error
  pub same_injectors : progress.injectors ≡ left
  pub same_world : progress.world ≡ w'
  pub before : List ScenarioStep
  pub at : ScenarioStep
  pub behind : List ScenarioStep
  pub split : cfg.schedule ≡ before ++ at ∷ behind
  pub recorded : fired progress.trace ≡ before
  pub flag :
      (at.fault_id ≡ f)
      ⊎ (is_armed (dyn_injector hosts) f left
          ≡ flag_after
              (is_armed (dyn_injector hosts) f (built cfg.injectors))
              (actions_on f before))

same_flags :
    {W I S : Type 0} (ops : FaultInjector W I) (f : Text) {a a' b b' : Registry I}
    (acts : List StepAction)
    → a ≡ a'
    → b ≡ b'
    → S ⊎ (is_armed ops f b ≡ flag_after (is_armed ops f a') acts)
    → S ⊎ (is_armed ops f b' ≡ flag_after (is_armed ops f a) acts)
same_flags ops f acts h k flag = rw (h, ← k) flag

-- Where the binary ends a scenario whose config it has read in `die`, it has either touched
-- nothing, with every injector as it was built, or a run has failed: at a step of the schedule,
-- behind the steps that the run recorded. Then the process ends with the injectors and the world as
-- the failed run left them, and nothing is disarmed: each fault but that of the step is armed if
-- the last action on it among those steps is an arm. There is no assumption on the injectors.
pub died-armed :
    {W B P : Type 0} (hosts : Hosts W B P) (shell : Shell W) (fuel : ℕ) (path : Text) (tick : ℕ)
    (realtime : Bool) (w w' : W) (cfg : Config) (why f : Text) (left : Registry (AnyInjector B P))
    → load_config shell path w ≡ ok cfg
    → execute_scenario shell (dyn_injector hosts) fuel path tick realtime w
      ≡ some (died why left w')
    → ((left ≡ built cfg.injectors) × (w' ≡ w))
      ⊎ Interrupted hosts shell fuel cfg tick realtime w why f left w'
unfolding execute_scenario steps
died-armed {B} {P} hosts shell fuel path tick realtime w w' cfg why f left loaded h =
    let ops = dyn_injector hosts in
    let run : execute_config shell ops fuel cfg tick realtime w ≡ some (died why left w') =
      rw (loaded, execute_scenario) at h in
    elim (execute_config-cases {B = B} {P = P} shell fuel cfg tick realtime w) [
      | inr (ended, inl (y, e), ends) ↦ inl (cc (run, ends ops, e), cc (run, ends ops, e))
      | inr (ended, inr e, ends) ↦ cc (run, ends ops, e)
      | inl (v, r, e, k) ↦
          let runs = rw (execute_config-runs shell ops fuel cfg tick realtime w v r e k) at run in
          elim (Option-cases (run_inner ops shell.sleep fuel tick realtime r w)) [
            | inl l ↦ cc (rw l at runs)
            | inr (ended, l) ↦
                let (x, failed, at_end, at_world, message) =
                  finish-died hosts shell ended {why = why} {left = left} {w = w'}
                    (cc (rw l at runs)) in
                let ran = l ∙ ap some failed in
                let (before, at, behind, split, recorded, flag) =
                  run_inner-Stopped ops shell.sleep fuel tick realtime r w x ended.1 f
                    (dyn_injector-IsFaultInjector hosts) ran in
                let (sc, _) = validate-ok (scenario_of cfg) v e in
                let (_, made) = new-ok v (built cfg.injectors) (context cfg) r k in
                let scheduled : steps r.schedule ≡ cfg.schedule =
                  ap (λ (r : Runner (AnyInjector B P)). r.schedule.scenario.steps) (sym made)
                  ∙ ap (λ (sc : Scenario). sc.steps) sc in
                let first : built cfg.injectors ≡ r.injectors =
                  ap (λ (r : Runner (AnyInjector B P)). r.injectors) made in
                inr record {
                  schedule = v;
                  runner = r;
                  error = x;
                  progress = ended.1;
                  valid = e;
                  set_up = k;
                  ran = ran;
                  message = message;
                  same_injectors = at_end;
                  same_world = at_world;
                  before = before;
                  at = at;
                  behind = behind;
                  split = sym scheduled ∙ split;
                  recorded = recorded;
                  flag = same_flags ops f (actions_on f before) first at_end flag;
                }
          ]
    ]
