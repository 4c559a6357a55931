-- ===== src/Cli/Main/Steps.antt =====
-- The steps of `execute_scenario`: a config that passes, and the run behind it.
use blackswan_harness.Prelude.{
  ℕ, Bool, true, false, Bool-cases, Text, ok, Outcome-cases, none, some, List, [], ◌∷◌, map, ◌≡◌,
  refl, ◌⊎◌, inl, inr, bytes_eq, codes, ◌++◌,
}
use blackswan_harness.Core.Scenario.{Scenario}
use blackswan_harness.Core.Fault.{FaultInjector}
use blackswan_harness.Replay.Schedule.{ValidatedSchedule, validate}
use blackswan_harness.Replay.Runner
use blackswan_harness.Replay.Runner.{Runner, Progress, run_inner, run, run_realtime, is_armed}
use blackswan_harness.Replay.Runner.Safety.{is_armed-nil, is_armed-cons}
use blackswan_harness.Replay.Runner.Table.{Registry}
use blackswan_harness.Cli.Config.{Config, InjectorConfig}
use blackswan_harness.Cli.Build.{Hosts, AnyInjector, build_injector, dyn_injector}
use blackswan_harness.Cli.Build.Fresh.{build_injector-fresh}
use blackswan_harness.Cli.Main.Execute.{
  Shell, build_scenario_and_injectors, Executed, died, unwound, context, drive, finish,
  execute_config,
}

abbrev pub scenario_of : Config → Scenario
scenario_of cfg = record { name = cfg.name; seed = cfg.seed; steps = cfg.schedule }

-- The registry as it is made.
abbrev pub built : {B P : Type 0} → List (Text × InjectorConfig) → Registry (AnyInjector B P)
built configs = map (λ (e : Text × InjectorConfig). (e.0, build_injector e.0 e.1)) configs

pub built-unarmed :
    {W B P : Type 0} (hosts : Hosts W B P) (configs : List (Text × InjectorConfig)) (f : Text)
    (b : Bool)
    → is_armed (dyn_injector hosts) f (built configs) ≡ some b
    → b ≡ false
built-unarmed hosts [] f b h = cc (is_armed-nil (dyn_injector hosts) f)
built-unarmed hosts ((g, config) ∷ configs) f b h =
    let cons = is_armed-cons (dyn_injector hosts) g f (build_injector g config) (built configs) in
    elim (Bool-cases (bytes_eq g f)) [
      | inl same ↦
          let fresh = (build_injector-fresh hosts g config).1 in cc (rw (cons, same, fresh) at h)
      | inr other ↦ built-unarmed hosts configs f b (rw (cons, other) at h)
    ]

module _ {W B P : Type 0} (shell : Shell W) (ops : FaultInjector W (AnyInjector B P)) where
  pub drive-run_inner :
      (fuel tick : ℕ) (realtime : Bool) (r : Runner (AnyInjector B P)) (w : W)
      → drive shell ops fuel tick realtime r w ≡ run_inner ops shell.sleep fuel tick realtime r w
  unfolding drive run run_realtime
  drive-run_inner fuel tick true r w = refl
  drive-run_inner fuel tick false r w = refl

  -- A config that passes the checks is run.
  pub execute_config-runs :
      (fuel : ℕ) (cfg : Config) (tick : ℕ) (realtime : Bool) (w : W) (v : ValidatedSchedule)
      (r : Runner (AnyInjector B P))
      → validate (scenario_of cfg) ≡ ok v
      → Runner.new v (built cfg.injectors) (context cfg) ≡ ok r
      → execute_config shell ops fuel cfg tick realtime w
        ≡ (elim (run_inner ops shell.sleep fuel tick realtime r w) [
          | none ↦ none
          | some ended ↦ some (finish shell ops ended)
        ])
  unfolding execute_config build_scenario_and_injectors
  execute_config-runs fuel cfg tick realtime w v r e k =
      rw (e, execute_config, k, drive-run_inner fuel tick realtime r w)

module _ {W B P : Type 0} (shell : Shell W) where
  -- A config that does not pass ends the process or panics before anything is armed, whatever the
  -- injectors would do.
  pub execute_config-cases :
      (fuel : ℕ) (cfg : Config) (tick : ℕ) (realtime : Bool) (w : W)
      → ((v : ValidatedSchedule) × (r : Runner (AnyInjector B P)) × (validate (scenario_of cfg)
            ≡ ok v)
          × (Runner.new v (built cfg.injectors) (context cfg) ≡ ok r))
        ⊎ ((ended : Executed W (AnyInjector B P)) × (((why : Text) × (ended
                  ≡ died why (built cfg.injectors) w))
              ⊎ (ended ≡ unwound (built cfg.injectors) w))
            × ((ops : FaultInjector W (AnyInjector B P))
                → execute_config shell ops fuel cfg tick realtime w ≡ some ended))
  unfolding execute_config build_scenario_and_injectors
  execute_config-cases fuel cfg tick realtime w =
      elim (Outcome-cases (validate (scenario_of cfg))) [
        | inr (inl (x, e)) ↦ inr (
          died _ _ w,
          inl (codes "invalid scenario: " ++ shell.debug x, refl),
          λ ops. rw (e, execute_config),
        )
        | inr (inr e) ↦ inr (unwound _ w, inr refl, λ ops. rw (e, execute_config))
        | inl (v, e) ↦
            elim (Outcome-cases
              (Runner.new v (built {B = B} {P = P} cfg.injectors) (context cfg))) [
                | inr (inl (x, k)) ↦ inr (
                  died _ _ w,
                  inl (codes "setting up runner: " ++ shell.debug x, refl),
                  λ ops. rw (e, execute_config, k),
                )
                | inr (inr k) ↦ inr (unwound _ w, inr refl, λ ops. rw (e, execute_config, k))
                | inl (r, k) ↦ inl (v, r, e, k)
              ]
      ]
