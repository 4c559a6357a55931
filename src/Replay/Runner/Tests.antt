-- ===== src/Replay/Runner/Tests.antt =====
-- Runs of one small scenario, with injectors that count the calls.
use blackswan_harness.Prelude.{
  ℕ, suc, err, List, ◌++◌, ◌⊎◌, Bool, true, false, Text, codes, Outcome, ok, panic, none, some, [],
  ◌∷◌, ◌≡◌, ◌≢◌, refl, arith, All, bytes_eq, Bool-cases, inl, inr,
}
use blackswan_harness.Core.Error.{HarnessError, disarm_failed}
use blackswan_harness.Core.Clock.{system_clock}
use blackswan_harness.Core.Scenario.{ScenarioStep, arm, disarm}
use blackswan_harness.Core.Fault.{FaultContext, FaultInjector, IsFaultInjector}
use blackswan_harness.Replay.Schedule.{ValidatedSchedule, steps}
use blackswan_harness.Replay.Schedule.Spec.{IsSound, IsOrdered, actions_on, Alternates}
use blackswan_harness.Replay.Scheduler
use blackswan_harness.Replay.Scheduler.{advance, is_finished, now_ns, skip_due}
use blackswan_harness.Replay.Scheduler.Due.{DueBy}
use blackswan_harness.Replay.Trace
use blackswan_harness.Replay.Trace.{Trace, fired, matches_schedule, push}
use blackswan_harness.Replay.Runner.{
  Runner, Progress, new, check_registered, act, settle, fire_step, fire, nap, run_loop, start,
  run_inner, is_armed, teardown, teardown_loop, report, keep_first,
}
use blackswan_harness.Replay.Runner.Table.{lookup, replace}
use blackswan_harness.Replay.Runner.Safety.{flag_after, run_inner-armed}
use blackswan_harness.Replay.Runner.Strict.{strict, run_inner-strict}
use blackswan_harness.Replay.Runner.Panics.{NeverPanics, run_inner-ne-panic}
use blackswan_harness.Replay.Runner.Times.{AllTimely, run_inner-timely}
use blackswan_harness.Replay.Runner.Fired.{run_inner-fired, runs_match}
use blackswan_harness.Replay.Runner.Termination.{run_inner_returns, run_inner_diverges}
use blackswan_harness.Replay.Runner.Failure.{run_inner-Stopped}
use blackswan_harness.Replay.Runner.Teardown.{teardown-unarmed}

abbrev loss : Text
loss = codes "loss"

abbrev armed_at : ScenarioStep
armed_at = record { at_ns = 10; fault_id = loss; action = arm }

abbrev disarmed_at : ScenarioStep
disarmed_at = record { at_ns = 25; fault_id = loss; action = disarm }

abbrev schedule : ValidatedSchedule
schedule = record {
  scenario = record { name = codes "demo"; seed = 7; steps = armed_at ∷ disarmed_at ∷ [] };
}

abbrev counting : FaultInjector ℕ Bool
counting = record {
  id = λ i. loss;
  arm = λ ctx i w. (ok tt, true, suc w);
  disarm = λ i w. (ok tt, false, suc w);
  is_armed = λ i. i;
}

abbrev context : FaultContext
context = record { clock = system_clock; seed = 7 }

abbrev runner : Runner Bool
runner = record { schedule = schedule; injectors = (loss, false) ∷ []; ctx = context }

abbrev asleep : ℕ → ℕ → ℕ
asleep ns w = w

abbrev trace : Trace
trace = record {
  scenario_name = codes "demo";
  seed = 7;
  events =
      record { step = armed_at; wall_ns = 10 } ∷ record { step = disarmed_at; wall_ns = 30 } ∷ [];
}

abbrev progress : Progress ℕ Bool
progress = record { injectors = (loss, false) ∷ []; trace = trace; world = 2 }

counted : run_inner counting asleep 4 10 false runner 0 ≡ some (ok trace, progress)
unfolding run_inner run_loop start nap fire fire_step act settle advance skip_due is_finished now_ns
    push lookup replace bytes_eq Scheduler.new Trace.new steps
counted = refl

abbrev trace_slow : Trace
trace_slow = record {
  scenario_name = codes "demo";
  seed = 7;
  events =
      record { step = armed_at; wall_ns = 14 } ∷ record { step = disarmed_at; wall_ns = 28 } ∷ [];
}

abbrev progress_slow : Progress ℕ Bool
progress_slow = record { injectors = (loss, false) ∷ []; trace = trace_slow; world = 2 }

counted_slow : run_inner counting asleep 6 7 true runner 0 ≡ some (ok trace_slow, progress_slow)
unfolding run_inner run_loop start nap fire fire_step act settle advance skip_due is_finished now_ns
    push lookup replace bytes_eq Scheduler.new Trace.new steps
counted_slow = refl

runs_match_example : matches_schedule trace trace_slow ≡ true
runs_match_example =
    runs_match counting asleep 4 10 false runner 0 counting asleep 6 7 true runner 0 trace
      trace_slow progress progress_slow refl counted counted_slow

run_inner-fired_example :
    (fired trace ≡ steps schedule)
    × (trace.scenario_name ≡ schedule.scenario.name)
    × (trace.seed ≡ schedule.scenario.seed)
run_inner-fired_example = run_inner-fired counting asleep 4 10 false runner 0 trace progress counted

counting-IsFaultInjector : IsFaultInjector counting
counting-IsFaultInjector = record {
  armed = λ ctx i w h. refl;
  disarmed = λ i w h. refl;
  id-arm = λ ctx i w. refl;
  id-disarm = λ i w. refl;
}

run_inner-armed_example :
    is_armed counting loss progress.injectors
    ≡ flag_after (is_armed counting loss runner.injectors) (actions_on loss (steps schedule))
run_inner-armed_example =
    run_inner-armed counting asleep 4 10 false runner 0 trace progress loss counting-IsFaultInjector
      counted

counting-NeverPanics : NeverPanics counting
counting-NeverPanics = record { arm = λ ctx i w h. cc; disarm = λ i w h. cc }

made : new schedule ((loss, false) ∷ []) context ≡ ok runner
unfolding new check_registered steps lookup bytes_eq
made = refl

run_inner-ne-panic_example : ◌≢◌ {A = Outcome HarnessError Trace} (ok trace) panic
run_inner-ne-panic_example =
    run_inner-ne-panic counting asleep 4 10 false schedule ((loss, false) ∷ []) context runner 0
      (ok trace) progress counting-NeverPanics made counted

schedule-IsOrdered : IsOrdered 0 (steps schedule)
unfolding steps
schedule-IsOrdered = (omega arith, (omega arith, tt))

schedule-DueBy : DueBy 25 (steps schedule)
unfolding steps
schedule-DueBy = (omega arith, (omega arith, tt))

run_inner-timely_example : AllTimely 10 trace
run_inner-timely_example =
    run_inner-timely counting asleep 4 10 false runner 0 trace progress 25 schedule-IsOrdered
      schedule-DueBy (omega arith) counted

run_inner_returns_example :
    (res : Outcome HarnessError Trace × Progress ℕ Bool) × (run_inner counting asleep 5 10 false
        runner 0
      ≡ some res)
run_inner_returns_example =
    run_inner_returns counting asleep 10 false runner 0 3 25 schedule-DueBy (omega arith)
      (omega arith)

schedule_steps : steps schedule ≡ armed_at ∷ disarmed_at ∷ []
unfolding steps
schedule_steps = refl

run_inner_diverges_example : run_inner counting asleep 100 0 false runner 0 ≡ none
run_inner_diverges_example =
    run_inner_diverges counting asleep 0 false runner 0 armed_at (disarmed_at ∷ []) schedule_steps
      (λ k. omega arith) 100

alternating : (f : Text) → Alternates false (actions_on f (steps schedule))
unfolding steps actions_on
alternating f = elim (Bool-cases (bytes_eq loss f)) [ inl e ↦ rw e tt | inr e ↦ rw e tt ]

schedule-IsSound : IsSound (steps schedule)
schedule-IsSound = record { ordered = schedule-IsOrdered; alternating = alternating }

unarmed : (f : Text) (b : Bool) → is_armed counting f ((loss, false) ∷ []) ≡ some b → b ≡ false
unfolding is_armed lookup bytes_eq
unarmed f b h = elim (Bool-cases (bytes_eq loss f)) [
  | inl e ↦ cc (rw e at h)
  | inr e ↦ cc (rw e at h)
]

ran_strict :
    run_inner (strict counting) asleep 4 10 false runner 0
    ≡ run_inner counting asleep 4 10 false runner 0
ran_strict =
    run_inner-strict counting asleep 4 10 false schedule ((loss, false) ∷ []) context runner 0
      counting-IsFaultInjector schedule-IsSound unarmed made

torn_down : (teardown counting ((loss, true) ∷ (codes "skew", false) ∷ []) 0).0 ≡ ok tt
unfolding teardown teardown_loop report keep_first
torn_down = refl

torn_down_unarmed :
    All
      (λ (e : Text × Bool). e.1 ≡ false)
      (teardown counting ((loss, true) ∷ (codes "skew", false) ∷ []) 0).1
torn_down_unarmed =
    teardown-unarmed counting ((loss, true) ∷ (codes "skew", false) ∷ []) 0 counting-IsFaultInjector
      torn_down

-- An injector that cannot be disarmed.
abbrev stuck : FaultInjector ℕ Bool
stuck = record counting { disarm = λ i w. (err (disarm_failed loss (codes "busy")), i, suc w) }

stuck-IsFaultInjector : IsFaultInjector stuck
stuck-IsFaultInjector = record {
  armed = λ ctx i w h. refl;
  disarmed = λ i w h. cc;
  id-arm = λ ctx i w. refl;
  id-disarm = λ i w. refl;
}

abbrev trace_stuck : Trace
trace_stuck = record {
  scenario_name = codes "demo";
  seed = 7;
  events = record { step = armed_at; wall_ns = 10 } ∷ [];
}

abbrev progress_stuck : Progress ℕ Bool
progress_stuck = record { injectors = (loss, true) ∷ []; trace = trace_stuck; world = 2 }

stopped :
    run_inner stuck asleep 4 10 false runner 0
    ≡ some (err (disarm_failed loss (codes "busy")), progress_stuck)
unfolding run_inner run_loop start nap fire fire_step act settle advance skip_due is_finished now_ns
    push lookup replace bytes_eq Scheduler.new Trace.new steps
stopped = refl

run_inner-Stopped_example :
    (before : List ScenarioStep) × (at : ScenarioStep) × (behind : List ScenarioStep) × (steps
        schedule
      ≡ before ++ at ∷ behind)
    × (fired trace_stuck ≡ before)
    × ((at.fault_id ≡ loss)
        ⊎ (is_armed stuck loss progress_stuck.injectors
            ≡ flag_after (is_armed stuck loss runner.injectors) (actions_on loss before)))
run_inner-Stopped_example =
    run_inner-Stopped stuck asleep 4 10 false runner 0 (disarm_failed loss (codes "busy"))
      progress_stuck loss stuck-IsFaultInjector stopped
