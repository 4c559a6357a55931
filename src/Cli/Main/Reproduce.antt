-- ===== src/Cli/Main/Reproduce.antt =====
-- `blackswan run` and then `blackswan replay`, as two processes.
use blackswan_harness.Prelude.{
  ℕ, suc, ◌+◌, ◌*◌, ◌<◌, ◌≤◌, Text, codes, ◌++◌, Outcome, ok, some, ◌≡◌, refl, sym, ap, ◌∙◌, ◌⊎◌,
  true, false,
}
use blackswan_harness.Core.Clock.{u64_mod}
use blackswan_harness.Core.Error.{HarnessError}
use blackswan_harness.Core.Fault.{FaultInjector}
use blackswan_harness.Core.Scenario.{Scenario}
use blackswan_harness.Replay.Trace.{Trace}
use blackswan_harness.Replay.Trace.Store.{ReadsBack, load, load-save}
use blackswan_harness.Replay.Schedule.{ValidatedSchedule, steps, validate}
use blackswan_harness.Replay.Schedule.Validity.{validate-ok}
use blackswan_harness.Replay.Scheduler.Due.{DueBy}
use blackswan_harness.Replay.Runner
use blackswan_harness.Replay.Runner.{Runner, Progress, run_inner}
use blackswan_harness.Replay.Runner.Made.{new-ok}
use blackswan_harness.Replay.Runner.Fired.{runs_match}
use blackswan_harness.Replay.Runner.Termination.{run_inner_returns}
use blackswan_harness.Cli.Config.{Config}
use blackswan_harness.Cli.Build.{Hosts, AnyInjector, dyn_injector}
use blackswan_harness.Cli.Main.Execute.{Shell, load_config, finish, context}
use blackswan_harness.Cli.Main.{
  success, failure, panicked, Report, run_config, replay_config, main, compare_trace,
  replay_command,
}
use blackswan_harness.Cli.Main.Steps.{scenario_of, built}
use blackswan_harness.Cli.Main.Replayed.{
  NoMismatch, compare-finish, run_command-success, replay_command-runs, execute_config-returned,
  execute_scenario-returned,
}

module _ {W B P : Type 0} (shell : Shell W) (ops : FaultInjector W (AnyInjector B P)) where
  -- A replay whose baseline was recorded by a run of the same runner.
  replay_command-returns :
      (fuel tick tick' n m : ℕ) (config against : Text) (w v : W) (cfg : Config) (t : Trace)
      (vs : ValidatedSchedule) (r : Runner (AnyInjector B P)) (p : Progress W (AnyInjector B P))
      → validate (scenario_of cfg) ≡ ok vs
      → Runner.new vs (built cfg.injectors) (context cfg) ≡ ok r
      → run_inner ops shell.sleep fuel tick true r w ≡ some (ok t, p)
      → load shell.json shell.disk against v ≡ ok t
      → load_config shell config v ≡ ok cfg
      → DueBy m cfg.schedule
      → m + tick' < u64_mod
      → m ≤ n * tick'
      → (replayed : Report W (AnyInjector B P)) × (replay_command shell ops
            (suc (suc n))
            config
            tick'
            against
            v
          ≡ some replayed)
        × NoMismatch shell ops replayed.ending
  unfolding steps
  replay_command-returns fuel tick tick' n m config against w v cfg t vs r p e k l loaded read due
        fits reach =
      let scheduled : cfg.schedule ≡ steps r.schedule =
        ap (λ (sc : Scenario). sc.steps) (sym (validate-ok (scenario_of cfg) vs e).0)
        ∙ ap (λ (r : Runner (AnyInjector B P)). r.schedule.scenario.steps)
            (new-ok vs (built cfg.injectors) (context cfg) r k).1 in
      let ((res, q), ends) =
        run_inner_returns ops shell.sleep tick' false r v n m (rw scheduled at due) fits reach in
      (
        compare_trace shell ops against t (finish shell ops (res, q)),
        replay_command-runs shell ops (suc (suc n)) tick' config against v cfg t vs r (res, q)
            loaded read e k ends,
        compare-finish shell ops against t res q (λ t' good.
            runs_match ops shell.sleep (suc (suc n)) tick' false r v ops shell.sleep fuel tick true
              r w t' t q p refl
              (ends ∙ ap (λ (res : Outcome HarnessError Trace). some (res, q)) good) l),
      )

-- A `run` that was asked to save its trace and ends well is followed by a `replay`, at any later world
-- in which the config is as it was and the trace as it was saved, with any tick whose multiples
-- reach `m`, a bound of the times of the schedule, without wrapping. Then the replay ends, and it
-- never reports a mismatch: it ends well, or an injector failed in it or panicked. The files are
-- assumed to hold what was written, and the JSON of a trace to be read back.
pub replay-reproduces :
    {W B P : Type 0} (hosts : Hosts W B P) (shell : Shell W) (fuel tick tick' n m : ℕ)
    (config out against : Text) (w v : W) (cfg : Config) (report : Report W (AnyInjector B P))
    → ReadsBack shell.json shell.disk
    → load_config shell config w ≡ ok cfg
    → main hosts shell fuel (run_config config tick (some out)) w ≡ some report
    → report.ending ≡ success
    → load_config shell config v ≡ ok cfg
    → shell.disk.read against v ≡ shell.disk.read out report.world
    → DueBy m cfg.schedule
    → m + tick' < u64_mod
    → m ≤ n * tick'
    → (replayed : Report W (AnyInjector B P)) × (main hosts shell
          (suc (suc n))
          (replay_config config tick' against)
          v
        ≡ some replayed)
      × ((replayed.ending ≡ success)
          ⊎ ((x : HarnessError) × (replayed.ending
                ≡ failure (codes "run failed: " ++ shell.debug x)))
          ⊎ (replayed.ending ≡ panicked))
unfolding main
replay-reproduces {W} hosts shell fuel tick tick' n m config out against w v cfg report laws read
      ran good read' kept due fits reach =
    let ops = dyn_injector hosts in
    let (t, left, w', h, saved, world) =
      run_command-success shell ops fuel tick config out w report ran good in
    let (cfg', same, executed) =
      execute_scenario-returned shell ops fuel config tick true w w' t left h in
    let again : cfg' ≡ cfg = cc (same, read) in
    let (vs, r, p, e, k, l) =
      execute_config-returned shell ops fuel cfg tick true w w' t left (rw again at executed) in
    replay_command-returns shell ops fuel tick tick' n m config against w v cfg t vs r p e k l
      (load-save shell.json shell.disk t out against w' v laws saved
        (kept ∙ ap (λ (w : W). shell.disk.read out w) world))
      read' due fits reach
