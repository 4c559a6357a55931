-- ===== src/Cli/Main/Strict.antt =====
-- The binary's own runs, with injectors that do not bear being armed twice.
use blackswan_harness.Prelude.{
  ℕ, Bool, Text, Outcome, ok, err, panic, Outcome-cases, ◌≡◌, refl, sym, ap, ◌∙◌, inl, inr, Option,
  none, some,
}
use blackswan_harness.Core.Error.{HarnessError}
use blackswan_harness.Replay.Trace.{Trace}
use blackswan_harness.Replay.Schedule.Validity.{validate-ok}
use blackswan_harness.Replay.Runner.{Progress, teardown}
use blackswan_harness.Replay.Runner.Table.{Registry}
use blackswan_harness.Replay.Runner.Strict.{strict, run_inner-strict}
use blackswan_harness.Replay.Runner.Teardown.{teardown-strict}
use blackswan_harness.Cli.Config.{Config}
use blackswan_harness.Cli.Build.{Hosts, AnyInjector, dyn_injector}
use blackswan_harness.Cli.Build.Contract.{dyn_injector-IsFaultInjector}
use blackswan_harness.Cli.Main.Execute.{
  Shell, Executed, load_config, context, behind_trace, finish, execute_config, execute_scenario,
}
use blackswan_harness.Cli.Main.Steps.{
  scenario_of, built, built-unarmed, execute_config-runs, execute_config-cases,
}

module _ {W B P : Type 0} (hosts : Hosts W B P) (shell : Shell W) where
  behind_trace-strict :
      (t : Trace) (dropped : Outcome HarnessError (Unit {0}) × Registry (AnyInjector B P) × W)
      → behind_trace shell (strict (dyn_injector hosts)) t dropped
        ≡ behind_trace shell (dyn_injector hosts) t dropped
  unfolding behind_trace
  behind_trace-strict t (ok _, left, w) = refl
  behind_trace-strict t (err _, left, w) = refl
  behind_trace-strict t (panic, left, w) = refl

  finish-strict :
      (ended : Outcome HarnessError Trace × Progress W (AnyInjector B P))
      → finish shell (strict (dyn_injector hosts)) ended ≡ finish shell (dyn_injector hosts) ended
  unfolding finish behind_trace
  finish-strict (ok t, p) =
      rw (teardown-strict (dyn_injector hosts) p.injectors p.world)
        (behind_trace-strict t (teardown (dyn_injector hosts) p.injectors p.world))
  finish-strict (err e, p) = refl
  finish-strict (panic, p) = rw (teardown-strict (dyn_injector hosts) p.injectors p.world)

  ended-strict :
      (run : Option (Outcome HarnessError Trace × Progress W (AnyInjector B P)))
      → ◌≡◌ {A = Option (Executed W (AnyInjector B P))}
          (elim run [
            | none ↦ none
            | some ended ↦ some (finish shell (strict (dyn_injector hosts)) ended)
          ])
          (elim run [ none ↦ none | some ended ↦ some (finish shell (dyn_injector hosts) ended) ])
  ended-strict none = refl
  ended-strict (some ended) = ap some (finish-strict ended)

  execute_config-strict :
      (fuel : ℕ) (cfg : Config) (tick : ℕ) (realtime : Bool) (w : W)
      → execute_config shell (strict (dyn_injector hosts)) fuel cfg tick realtime w
        ≡ execute_config shell (dyn_injector hosts) fuel cfg tick realtime w
  unfolding execute_config
  execute_config-strict fuel cfg tick realtime w =
      let ops = dyn_injector hosts in
      elim (execute_config-cases {B = B} {P = P} shell fuel cfg tick realtime w) [
        | inr (ended, _, ends) ↦ ends (strict ops) ∙ sym (ends ops)
        | inl (v, r, e, k) ↦
            let (same, sound) = validate-ok (scenario_of cfg) v e in
            let runs =
              run_inner-strict ops shell.sleep fuel tick realtime v (built cfg.injectors)
                (context cfg) r w (dyn_injector-IsFaultInjector hosts) sound
                (built-unarmed hosts cfg.injectors) k in
            rw
              (
                execute_config-runs shell (strict ops) fuel cfg tick realtime w v r e k,
                execute_config-runs shell ops fuel cfg tick realtime w v r e k,
                runs,
              )
              (ended-strict _)
      ]

-- Whatever the config, its file, the fuel, the tick and the pacing, the binary executes a scenario
-- in the same way with injectors that panic when they are armed while armed or disarmed while
-- unarmed. There is no assumption: what is validated and built by the binary meets all that such a
-- run needs.
pub execute_scenario-strict :
    {W B P : Type 0} (hosts : Hosts W B P) (shell : Shell W) (fuel : ℕ) (path : Text) (tick : ℕ)
    (realtime : Bool) (w : W)
    → execute_scenario shell (strict (dyn_injector hosts)) fuel path tick realtime w
      ≡ execute_scenario shell (dyn_injector hosts) fuel path tick realtime w
unfolding execute_scenario
execute_scenario-strict hosts shell fuel path tick realtime w =
    elim (Outcome-cases (load_config shell path w)) [
      | inl (cfg, e) ↦
          rw (e, execute_scenario) (execute_config-strict hosts shell fuel cfg tick realtime w)
      | inr (inl (why, e)) ↦ rw (e, execute_scenario)
      | inr (inr e) ↦ rw (e, execute_scenario)
    ]
