-- ===== src/Cli/Main/Clean.antt =====
-- What a scenario that ends well leaves armed.
use blackswan_harness.Prelude.{
  ℕ, Bool, Text, Outcome, ok, err, panic, ◌≡◌, ◌≢◌, inl, inr, some, Option-cases, Outcome-cases,
  All, subst,
}
use blackswan_harness.Core.Error.{HarnessError}
use blackswan_harness.Replay.Trace.{Trace}
use blackswan_harness.Replay.Runner.{Progress, run_inner, teardown}
use blackswan_harness.Replay.Runner.Left.{Released, teardown-Released}
use blackswan_harness.Replay.Runner.Table.{Registry}
use blackswan_harness.Cli.Build.{Hosts, AnyInjector, dyn_injector}
use blackswan_harness.Cli.Build.Contract.{dyn_injector-IsFaultInjector}
use blackswan_harness.Cli.Config.{Config}
use blackswan_harness.Cli.Main.Execute.{
  Shell, returned, load_config, behind_trace, finish, execute_config, execute_scenario,
}
use blackswan_harness.Cli.Main.Steps.{execute_config-runs, execute_config-cases}

module _ {W B P : Type 0} (hosts : Hosts W B P) (shell : Shell W) where
  AllReleased : Registry (AnyInjector B P) → Type 0
  AllReleased = All (λ (e : Text × AnyInjector B P). Released (dyn_injector hosts) e.1)

  behind_trace-AllReleased :
      (t t' : Trace) (dropped : Outcome HarnessError (Unit {0}) × Registry (AnyInjector B P) × W)
      (left : Registry (AnyInjector B P)) (w : W)
      → (dropped.0 ≢ panic → AllReleased dropped.1)
      → behind_trace shell (dyn_injector hosts) t dropped ≡ returned t' left w
      → AllReleased left
  unfolding behind_trace
  behind_trace-AllReleased t t' (ok _, l, v) left w h e =
      let same : l ≡ left = cc in subst AllReleased same (h (λ k. cc))
  behind_trace-AllReleased t t' (err _, l, v) left w h e =
      let same : l ≡ left = cc in subst AllReleased same (h (λ k. cc))
  behind_trace-AllReleased t t' (panic, l, v) left w h e = cc

  finish-AllReleased :
      (ended : Outcome HarnessError Trace × Progress W (AnyInjector B P)) (t : Trace)
      (left : Registry (AnyInjector B P)) (w : W)
      → finish shell (dyn_injector hosts) ended ≡ returned t left w
      → AllReleased left
  unfolding finish AllReleased
  finish-AllReleased (ok t', p) t left w h =
      behind_trace-AllReleased t' t (teardown (dyn_injector hosts) p.injectors p.world) left w
        (teardown-Released (dyn_injector hosts) (dyn_injector-IsFaultInjector hosts) p.injectors
          p.world)
        h
  finish-AllReleased (err x, p) t left w h = cc
  finish-AllReleased (panic, p) t left w h = cc

  config-AllReleased :
      (fuel : ℕ) (cfg : Config) (tick : ℕ) (realtime : Bool) (w w' : W) (t : Trace)
      (left : Registry (AnyInjector B P))
      → execute_config shell (dyn_injector hosts) fuel cfg tick realtime w
        ≡ some (returned t left w')
      → AllReleased left
  config-AllReleased fuel cfg tick realtime w w' t left h =
      elim (execute_config-cases {B = B} {P = P} shell fuel cfg tick realtime w) [
        | inr (ended, inl (y, e), ends) ↦ cc (h, ends (dyn_injector hosts), e)
        | inr (ended, inr e, ends) ↦ cc (h, ends (dyn_injector hosts), e)
        | inl (v, r, e, k) ↦
            let runs =
              rw (execute_config-runs shell (dyn_injector hosts) fuel cfg tick realtime w v r e k)
                at h in
            elim (Option-cases
              (run_inner (dyn_injector hosts) shell.sleep fuel tick realtime r w)) [
                | inl l ↦ cc (rw l at runs)
                | inr (ended, l) ↦ finish-AllReleased ended t left w' (cc (rw l at runs))
              ]
      ]

  -- Where the binary ends a scenario with a trace, every injector is disarmed, or it is as a disarm
  -- that failed has left it. There is no assumption on the injectors, nor on the config.
  pub returned-Released :
      (fuel : ℕ) (path : Text) (tick : ℕ) (realtime : Bool) (w w' : W) (t : Trace)
      (left : Registry (AnyInjector B P))
      → execute_scenario shell (dyn_injector hosts) fuel path tick realtime w
        ≡ some (returned t left w')
      → All (λ (e : Text × AnyInjector B P). Released (dyn_injector hosts) e.1) left
  unfolding execute_scenario AllReleased
  returned-Released fuel path tick realtime w w' t left h =
      elim (Outcome-cases (load_config shell path w)) [
        | inl (cfg, e) ↦
            config-AllReleased fuel cfg tick realtime w w' t left (rw (e, execute_scenario) at h)
        | inr (inl (y, e)) ↦ cc (rw (e, execute_scenario) at h)
        | inr (inr e) ↦ cc (rw (e, execute_scenario) at h)
      ]
