-- ===== src/Cli/Main/Tests.antt =====
-- Scenarios through the binary, on a machine whose only file system is that of the traces.
mod Codec
mod Fixture
use Fixture.{Machine, hosts, shell, reads_back, reject, launch, step_at, clean, failing}
use Codec.{encode}
use blackswan_harness.Prelude.{
  Bool, true, false, Text, codes, bytes_eq, ok, some, List, [], ◌∷◌, ◌++◌, ◌≡◌, ◌≢◌, refl, ◌⊎◌, ◌+◌,
  All, arith,
}
use blackswan_harness.Core.Error.{HarnessError}
use blackswan_harness.Core.Scenario.{ScenarioStep, arm, disarm}
use blackswan_harness.Core.Fault.{IsFaultInjector, IsIdempotent}
use blackswan_harness.Replay.Trace
use blackswan_harness.Replay.Trace.{Trace, push}
use blackswan_harness.Replay.Trace.Store.{save}
use blackswan_harness.Replay.Schedule.{
  validate, check_steps, check_step, track, contains, remove, steps,
}
use blackswan_harness.Replay.Scheduler
use blackswan_harness.Replay.Scheduler.{advance, skip_due, is_finished, now_ns}
use blackswan_harness.Replay.Runner
use blackswan_harness.Replay.Runner.{
  check_registered, act, settle, fire_step, fire, nap, run_loop, start, run_inner, run,
  run_realtime, is_armed, keep_first, teardown_loop, report, teardown,
}
use blackswan_harness.Replay.Runner.Table.{lookup, replace}
use blackswan_harness.Fix.Injector
use blackswan_harness.Fix.Injector.{fix_fault_injector, new_proxy}
use blackswan_harness.Cli.Config.{time_skew}
use blackswan_harness.Cli.Build.{
  AnyInjector, fix, silent_reject, build_injector, dyn_id, dyn_arm, dyn_disarm, dyn_is_armed,
  dyn_injector,
}
use blackswan_harness.Cli.Build.Again.{dyn_injector-IsIdempotent}
use blackswan_harness.Cli.Main.Steps.{built}
use blackswan_harness.Cli.Main.Strict.{execute_scenario-strict}
use blackswan_harness.Cli.Main.Death.{Interrupted, died-armed}
use blackswan_harness.Cli.Main.Reproduce.{replay-reproduces}
use blackswan_harness.Replay.Schedule.Spec.{actions_on}
use blackswan_harness.Replay.Scheduler.Due.{DueBy}
use blackswan_harness.Replay.Runner.Safety.{flag_after}
use blackswan_harness.Replay.Runner.Left.{Released}
use blackswan_harness.Cli.Main.Clean.{returned-Released}
use blackswan_harness.Replay.Runner.Strict.{strict}
use blackswan_harness.Kernel.TimeSkew
use blackswan_harness.Kernel.TimeSkew.{pos, time_skew_injector}
use blackswan_harness.Cli.Main.Print.{print_trace_summary}
use blackswan_harness.Cli.Main.Execute.{
  returned, died, load_config, context, drive, finish, behind_trace, build_scenario_and_injectors,
  execute_config, execute_scenario,
}
use blackswan_harness.Cli.Main.{
  panicked, Report, success, failure, keep_trace, run_command, run_config, replay_config, main,
}

abbrev clean_trace : Trace
clean_trace = record {
  scenario_name = codes "demo";
  seed = 7;
  events =
      record { step = step_at 10 reject arm; wall_ns = 10 }
      ∷ record { step = step_at 25 reject disarm; wall_ns = 30 }
      ∷ [];
}

-- The injector once its proxy runs.
abbrev proxied : Bool → AnyInjector (Unit {0}) (Unit {0})
proxied on =
    fix
      (record {
        id = reject;
        proxy = record {
          listen_addr = codes "a:1";
          upstream_addr = codes "b:2";
          enabled = on;
          running = true;
          shutdown = false;
        };
        armed = on;
      })
      silent_reject

abbrev out : Text
out = codes "out"

abbrev clean_report : Report Machine (AnyInjector (Unit {0}) (Unit {0}))
clean_report = record {
  ending = success;
  stdout = print_trace_summary clean_trace ++ (codes "trace saved to " ++ (out ++ 10 ∷ []));
  left = (reject, proxied false) ∷ [];
  world = (out, encode clean_trace) ∷ (out, []) ∷ [];
}

clean_executed :
    execute_config (shell clean) (dyn_injector hosts) 5 clean 10 true []
    ≡ some (returned clean_trace ((reject, proxied false) ∷ []) [])
unfolding execute_config build_scenario_and_injectors build_injector validate check_steps check_step
    track contains remove steps Runner.new check_registered context drive finish behind_trace run
    run_realtime run_inner run_loop start nap fire fire_step act settle advance skip_due is_finished
    now_ns push lookup replace bytes_eq Scheduler.new Trace.new teardown teardown_loop report
    keep_first dyn_injector dyn_id dyn_arm dyn_disarm dyn_is_armed fix_fault_injector Injector.arm
    Injector.disarm Injector.new new_proxy Injector.start
clean_executed = refl

clean_ran : main hosts (shell clean) 5 (run_config (codes "c") 10 (some out)) [] ≡ some clean_report
unfolding main run_command execute_scenario load_config keep_trace save
clean_ran = rw (main, run_command, execute_scenario, load_config, clean_executed, keep_trace, save)

clean_loaded : (w : Machine) → load_config (shell clean) (codes "c") w ≡ ok clean
unfolding load_config
clean_loaded w = refl

clean_returned :
    execute_scenario (shell clean) (dyn_injector hosts) 5 (codes "c") 10 true []
    ≡ some (returned clean_trace ((reject, proxied false) ∷ []) [])
unfolding execute_scenario
clean_returned = rw (clean_loaded [], execute_scenario, clean_executed)

returned-Released_example :
    All
      (λ (e : Text × AnyInjector (Unit {0}) (Unit {0})). Released (dyn_injector hosts) e.1)
      ((reject, proxied false) ∷ [])
returned-Released_example =
    returned-Released hosts (shell clean) 5 (codes "c") 10 true [] [] clean_trace
      ((reject, proxied false) ∷ []) clean_returned

clean_due : DueBy 25 clean.schedule
clean_due = (omega arith, (omega arith, tt))

replay-reproduces_example :
    (replayed : Report Machine (AnyInjector (Unit {0}) (Unit {0}))) × (main hosts
        (shell clean)
        6
        (replay_config (codes "c") 7 out)
        clean_report.world
      ≡ some replayed)
    × ((replayed.ending ≡ success)
        ⊎ ((x : HarnessError) × (replayed.ending
              ≡ failure (codes "run failed: " ++ (shell clean).debug x)))
        ⊎ (replayed.ending ≡ panicked))
replay-reproduces_example =
    replay-reproduces hosts (shell clean) 5 10 7 4 25 (codes "c") out out [] clean_report.world
      clean clean_report reads_back (clean_loaded []) clean_ran refl
      (clean_loaded clean_report.world) refl clean_due (omega arith) (omega arith)

execute_scenario-strict_example :
    execute_scenario (shell clean) (strict (dyn_injector hosts)) 5 (codes "c") 10 true []
    ≡ execute_scenario (shell clean) (dyn_injector hosts) 5 (codes "c") 10 true []
execute_scenario-strict_example =
    execute_scenario-strict hosts (shell clean) 5 (codes "c") 10 true []

abbrev failed_left : List (Text × AnyInjector (Unit {0}) (Unit {0}))
failed_left =
    (reject, proxied true) ∷ (launch, build_injector launch (time_skew [] (pos 5) (pos 5))) ∷ []

failed :
    execute_config (shell failing) (dyn_injector hosts) 5 failing 10 true []
    ≡ some (died (codes "run failed: error") failed_left [])
unfolding execute_config build_scenario_and_injectors build_injector validate check_steps check_step
    track contains remove steps Runner.new check_registered context drive finish behind_trace run
    run_realtime run_inner run_loop start nap fire fire_step act settle advance skip_due is_finished
    now_ns push lookup replace bytes_eq Scheduler.new Trace.new teardown teardown_loop report
    keep_first dyn_injector dyn_id dyn_arm dyn_disarm dyn_is_armed fix_fault_injector Injector.arm
    Injector.disarm Injector.new new_proxy Injector.start time_skew_injector TimeSkew.arm
    TimeSkew.new
failed = refl

-- The proxy is left armed when the process ends.
left_armed : is_armed (dyn_injector hosts) reject failed_left ≡ some true
unfolding is_armed lookup bytes_eq dyn_injector dyn_is_armed fix_fault_injector
left_armed = refl

failed_loaded : load_config (shell failing) (codes "c") [] ≡ ok failing
unfolding load_config
failed_loaded = refl

failed_ran :
    execute_scenario (shell failing) (dyn_injector hosts) 5 (codes "c") 10 true []
    ≡ some (died (codes "run failed: error") failed_left [])
unfolding execute_scenario
failed_ran = rw (failed_loaded, execute_scenario, failed)

died-armed_example :
    ((failed_left ≡ built failing.injectors) × (◌≡◌ {A = Machine} [] []))
    ⊎ Interrupted hosts
        (shell failing)
        5
        failing
        10
        true
        []
        (codes "run failed: error")
        reject
        failed_left
        []
died-armed_example =
    died-armed hosts (shell failing) 5 (codes "c") 10 true [] [] failing (codes "run failed: error")
      reject failed_left failed_loaded failed_ran

dyn_injector-IsIdempotent_example :
    IsFaultInjector (dyn_injector hosts) × IsIdempotent (dyn_injector hosts)
dyn_injector-IsIdempotent_example = dyn_injector-IsIdempotent hosts
