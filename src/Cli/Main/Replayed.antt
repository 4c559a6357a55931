-- ===== src/Cli/Main/Replayed.antt =====
-- `blackswan replay` against a trace that `blackswan run` has saved.
use blackswan_harness.Prelude.{
  ℕ, Bool, Text, codes, Outcome, ok, err, panic, Outcome-cases, ◌≡◌, refl, ap, ◌∙◌, inl, inr, ◌⊎◌,
  some, Option-cases, ◌++◌, true, false,
}
use blackswan_harness.Core.Error.{HarnessError}
use blackswan_harness.Core.Fault.{FaultInjector}
use blackswan_harness.Replay.Trace.{Trace, matches_schedule}
use blackswan_harness.Replay.Trace.Store.{save, load}
use blackswan_harness.Replay.Schedule.{ValidatedSchedule, validate}
use blackswan_harness.Replay.Runner
use blackswan_harness.Replay.Runner.{Runner, Progress, run_inner, teardown}
use blackswan_harness.Replay.Runner.Table.{Registry}
use blackswan_harness.Cli.Config.{Config}
use blackswan_harness.Cli.Build.{AnyInjector}
use blackswan_harness.Cli.Main.Execute.{
  Shell, Executed, returned, died, unwound, load_config, context, behind_trace, finish,
  execute_config, execute_scenario,
}
use blackswan_harness.Cli.Main.{
  Ending, success, failure, panicked, Report, keep_trace, compare_trace, run_command,
  replay_command,
}
use blackswan_harness.Cli.Main.Steps.{scenario_of, built, execute_config-runs, execute_config-cases}

module _ {W B P : Type 0} (shell : Shell W) (ops : FaultInjector W (AnyInjector B P)) where
  behind_trace-returned :
      (t t' : Trace) (dropped : Outcome HarnessError (Unit {0}) × Registry (AnyInjector B P) × W)
      {left : Registry (AnyInjector B P)} {w : W}
      → behind_trace shell ops t dropped ≡ returned t' left w
      → t ≡ t'
  unfolding behind_trace
  behind_trace-returned t t' (ok _, left, w) h = cc
  behind_trace-returned t t' (err _, left, w) h = cc
  behind_trace-returned t t' (panic, left, w) h = cc

  finish-returned :
      (ended : Outcome HarnessError Trace × Progress W (AnyInjector B P)) (t : Trace)
      {left : Registry (AnyInjector B P)} {w : W}
      → finish shell ops ended ≡ returned t left w
      → ended ≡ (ok t, ended.1)
  unfolding finish
  finish-returned (ok t', p) t h =
      let same = behind_trace-returned t' t (teardown ops p.injectors p.world) h in
      ap (λ (t : Trace). (ok t, p)) same
  finish-returned (err x, p) t h = cc
  finish-returned (panic, p) t h = cc

  -- A scenario that gives a trace has passed the checks, and its run has given that trace.
  pub execute_config-returned :
      (fuel : ℕ) (cfg : Config) (tick : ℕ) (realtime : Bool) (w w' : W) (t : Trace)
      (left : Registry (AnyInjector B P))
      → execute_config shell ops fuel cfg tick realtime w ≡ some (returned t left w')
      → (v : ValidatedSchedule) × (r : Runner (AnyInjector B P)) × (p : Progress W
          (AnyInjector B P))
        × (validate (scenario_of cfg) ≡ ok v)
        × (Runner.new v (built cfg.injectors) (context cfg) ≡ ok r)
        × (run_inner ops shell.sleep fuel tick realtime r w ≡ some (ok t, p))
  execute_config-returned fuel cfg tick realtime w w' t left h =
      elim (execute_config-cases {B = B} {P = P} shell fuel cfg tick realtime w) [
        | inr (ended, inl (y, e), ends) ↦ cc (h, ends ops, e)
        | inr (ended, inr e, ends) ↦ cc (h, ends ops, e)
        | inl (v, r, e, k) ↦
            let runs = rw (execute_config-runs shell ops fuel cfg tick realtime w v r e k) at h in
            elim (Option-cases (run_inner ops shell.sleep fuel tick realtime r w)) [
              | inl l ↦ cc (rw l at runs)
              | inr (ended, l) ↦
                  let ok_end = finish-returned ended t {left = left} {w = w'} (cc (rw l at runs)) in
                  (v, r, ended.1, e, k, l ∙ ap some ok_end)
            ]
      ]

  pub execute_scenario-returned :
      (fuel : ℕ) (path : Text) (tick : ℕ) (realtime : Bool) (w w' : W) (t : Trace)
      (left : Registry (AnyInjector B P))
      → execute_scenario shell ops fuel path tick realtime w ≡ some (returned t left w')
      → (cfg : Config) × (load_config shell path w ≡ ok cfg)
        × (execute_config shell ops fuel cfg tick realtime w ≡ some (returned t left w'))
  unfolding execute_scenario
  execute_scenario-returned fuel path tick realtime w w' t left h =
      elim (Outcome-cases (load_config shell path w)) [
        | inl (cfg, e) ↦ (cfg, e, rw (e, execute_scenario) at h)
        | inr (inl (why, e)) ↦ cc (rw (e, execute_scenario) at h)
        | inr (inr e) ↦ cc (rw (e, execute_scenario) at h)
      ]

  -- A `run` that was asked to save its trace and ends well has printed and saved one.
  keep_trace-success :
      (out : Text) (ended : Executed W (AnyInjector B P))
      → (keep_trace shell ops (some out) ended).ending ≡ success
      → (t : Trace) × (left : Registry (AnyInjector B P)) × (w : W) × (ended ≡ returned t left w)
        × ((save shell.json shell.disk t out w).0 ≡ ok tt)
        × ((keep_trace shell ops (some out) ended).world ≡ (save shell.json shell.disk t out w).1)
  unfolding keep_trace
  keep_trace-success out (died why left w) h = cc
  keep_trace-success out (unwound left w) h = cc
  keep_trace-success out (returned t left w) h =
      elim (Outcome-cases (save shell.json shell.disk t out w).0) [
        | inl (_, e) ↦ (t, left, w, refl, e, rw (e, keep_trace))
        | inr (inl (x, e)) ↦ cc (rw (e, keep_trace) at h)
        | inr (inr e) ↦ cc (rw (e, keep_trace) at h)
      ]

  abbrev pub NoMismatch : Ending → Type 0
  NoMismatch e =
      (e ≡ success)
      ⊎ ((x : HarnessError) × (e ≡ failure (codes "run failed: " ++ shell.debug x)))
      ⊎ (e ≡ panicked)

  compare-behind :
      (against : Text) (t t' : Trace)
      (dropped : Outcome HarnessError (Unit {0}) × Registry (AnyInjector B P) × W)
      → matches_schedule t' t ≡ true
      → NoMismatch (compare_trace shell ops against t (behind_trace shell ops t' dropped)).ending
  unfolding compare_trace behind_trace
  compare-behind against t t' (ok _, left, w) h = inl (rw h)
  compare-behind against t t' (err _, left, w) h = inl (rw h)
  compare-behind against t t' (panic, left, w) h = inr (inr refl)

  pub compare-finish :
      (against : Text) (t : Trace) (res : Outcome HarnessError Trace)
      (p : Progress W (AnyInjector B P))
      → ((t' : Trace) → res ≡ ok t' → matches_schedule t' t ≡ true)
      → NoMismatch (compare_trace shell ops against t (finish shell ops (res, p))).ending
  unfolding compare_trace finish
  compare-finish against t (ok t') p h =
      compare-behind against t t' (teardown ops p.injectors p.world) (h t' refl)
  compare-finish against t (err x) p h = inr (inl (x, refl))
  compare-finish against t panic p h = inr (inr refl)

  -- `run` that ends well, by the run behind it.
  pub run_command-success :
      (fuel tick : ℕ) (config out : Text) (w : W) (report : Report W (AnyInjector B P))
      → run_command shell ops fuel config tick (some out) w ≡ some report
      → report.ending ≡ success
      → (t : Trace) × (left : Registry (AnyInjector B P)) × (w' : W) × (execute_scenario shell ops
            fuel config tick true w
          ≡ some (returned t left w'))
        × ((save shell.json shell.disk t out w').0 ≡ ok tt)
        × (report.world ≡ (save shell.json shell.disk t out w').1)
  unfolding run_command
  run_command-success fuel tick config out w report h good =
      elim (Option-cases (execute_scenario shell ops fuel config tick true w)) [
        | inl e ↦ cc (rw (e, run_command) at h)
        | inr (ended, e) ↦
            let same : keep_trace shell ops (some out) ended ≡ report =
              cc (rw (e, run_command) at h) in
            let (t, left, w', k, saved, world) = keep_trace-success out ended (rw (same) good) in
            (t, left, w', e ∙ ap some k, saved, rw (same) at world)
      ]

  -- `replay` where the baseline loads and the config passes, by the run behind it.
  pub replay_command-runs :
      (fuel tick : ℕ) (config against : Text) (w : W) (cfg : Config) (t : Trace)
      (v : ValidatedSchedule) (r : Runner (AnyInjector B P))
      (ended : Outcome HarnessError Trace × Progress W (AnyInjector B P))
      → load shell.json shell.disk against w ≡ ok t
      → load_config shell config w ≡ ok cfg
      → validate (scenario_of cfg) ≡ ok v
      → Runner.new v (built cfg.injectors) (context cfg) ≡ ok r
      → run_inner ops shell.sleep fuel tick false r w ≡ some ended
      → replay_command shell ops fuel config tick against w
        ≡ some (compare_trace shell ops against t (finish shell ops ended))
  unfolding replay_command execute_scenario
  replay_command-runs fuel tick config against w cfg t v r ended loaded read e k l =
      rw (
        loaded,
        replay_command,
        read,
        execute_config-runs shell ops fuel cfg tick false w v r e k,
        l,
      )
