-- ===== src/Replay/Runner.antt =====
-- crates/replay/src/runner.rs: a validated schedule drives a registry of fault injectors.
-- The registry is an association list in the order in which `HashMap` would iterate, which is any
-- order. `W` is the world outside the program, on which the injectors act; `sleep` is
-- `std::thread::sleep`. The loop of `run_inner` takes fuel, and `none` means that it ran out.
pub mod Table
pub mod Fired
pub mod Termination
pub mod Times
pub mod Safety
pub mod Made
pub mod Strict
pub mod Panics
pub mod Failure
pub mod Teardown
pub mod Left
mod Tests
use Table.{Registry, lookup, replace}
use blackswan_harness.Prelude.{
  ℕ, zero, suc, Bool, true, false, if◌then◌else◌, Text, codes, Outcome, ok, err, panic, Option,
  none, some, List, [], ◌∷◌, ◌++◌,
}
use blackswan_harness.Core.Error.{HarnessError, invalid_scenario}
use blackswan_harness.Core.Scenario.{ScenarioStep, StepAction, arm, disarm}
use blackswan_harness.Core.Fault.{FaultContext, FaultInjector}
use blackswan_harness.Replay.Schedule.{ValidatedSchedule, steps}
use blackswan_harness.Replay.Scheduler
use blackswan_harness.Replay.Scheduler.{Scheduler, advance, is_finished, now_ns}
use blackswan_harness.Replay.Trace
use blackswan_harness.Replay.Trace.{Trace, push}

pub record Runner (I : Type 0) : Type 0 where
  pub schedule : ValidatedSchedule
  pub injectors : Registry I
  pub ctx : FaultContext

pub no_injector : ScenarioStep → HarnessError
no_injector step = invalid_scenario (
    codes "step references fault_id " ++ step.fault_id ++ codes " which has no registered injector")

-- The `for` loop of `Runner::new`.
unfoldable pub check_registered :
    {I : Type 0} → Registry I → List ScenarioStep → Outcome HarnessError (Unit {0})
check_registered injectors [] = ok tt
check_registered injectors (step ∷ rest) = elim (lookup step.fault_id injectors) [
  | none ↦ err (no_injector step)
  | some _ ↦ check_registered injectors rest
]

unfoldable pub new :
    {I : Type 0} → ValidatedSchedule → Registry I → FaultContext → Outcome HarnessError (Runner I)
unfolding check_registered steps
new schedule injectors ctx = elim (check_registered injectors (steps schedule)) [
  | ok _ ↦ ok (record { schedule = schedule; injectors = injectors; ctx = ctx })
  | err e ↦ err e
  | panic ↦ panic
]

-- What the loop changes: the injectors, the trace and the world.
pub record Progress (W I : Type 0) : Type 0 where
  pub injectors : Registry I
  pub trace : Trace
  pub world : W

module _ {W I : Type 0} (ops : FaultInjector W I) (ctx : FaultContext) where
  unfoldable pub act : StepAction → I → W → Outcome HarnessError (Unit {0}) × I × W
  act arm i w = ops.arm ctx i w
  act disarm i w = ops.disarm i w

  -- The step is recorded only behind an action that succeeded.
  unfoldable pub settle :
      ℕ
      → ScenarioStep
      → Outcome HarnessError (Unit {0}) × I × W
      → Progress W I
      → Outcome HarnessError (Unit {0}) × Progress W I
  settle now step (r, i, w) p =
      let changed = record p { injectors = replace step.fault_id i p.injectors; world = w } in
      elim r [
        | ok _ ↦ (ok tt, record changed { trace = push p.trace step now })
        | err e ↦ (err e, changed)
        | panic ↦ (panic, changed)
      ]

  -- One round of the `for` loop; `expect` panics where there is no injector.
  unfoldable pub fire_step :
      ℕ → ScenarioStep → Progress W I → Outcome HarnessError (Unit {0}) × Progress W I
  fire_step now step p = elim (lookup step.fault_id p.injectors) [
    | none ↦ (panic, p)
    | some i ↦ settle now step (act step.action i p.world) p
  ]

  unfoldable pub fire :
      ℕ → List ScenarioStep → Progress W I → Outcome HarnessError (Unit {0}) × Progress W I
  fire now [] p = (ok tt, p)
  fire now (step ∷ rest) p =
      let (r, p') = fire_step now step p in
      elim r [ ok _ ↦ fire now rest p' | err e ↦ (err e, p') | panic ↦ (panic, p') ]

module _ {W I : Type 0} (ops : FaultInjector W I) (sleep : ℕ → W → W) (ctx : FaultContext)
    (tick_ns : ℕ) (realtime : Bool) where
  unfoldable pub nap : Progress W I → Progress W I
  nap p = if realtime then record p { world = sleep tick_ns p.world } else p

  -- The body of the `while` loop, with the scheduler behind `advance`.
  abbrev pub round : Scheduler → Progress W I → Outcome HarnessError (Unit {0}) × Progress W I
  round s p = fire ops ctx (now_ns (advance tick_ns s).1) (advance tick_ns s).0 (nap p)

  unfoldable pub run_loop :
      ℕ → Scheduler → Progress W I → Option (Outcome HarnessError Trace × Progress W I)
  run_loop zero s p = none
  run_loop (suc fuel) s p = elim (is_finished s) [
    | true ↦ some (ok p.trace, p)
    | false ↦
        let (r, p') = round s p in
        elim r [
          | ok _ ↦ run_loop fuel (advance tick_ns s).1 p'
          | err e ↦ some (err e, p')
          | panic ↦ some (panic, p')
        ]
  ]

module _ {W I : Type 0} (ops : FaultInjector W I) (sleep : ℕ → W → W) where
  -- The progress before the first round.
  unfoldable pub start : Runner I → W → Progress W I
  start r w = record {
    injectors = r.injectors;
    trace = Trace.new r.schedule.scenario.name r.schedule.scenario.seed;
    world = w;
  }

  unfoldable pub run_inner :
      ℕ → ℕ → Bool → Runner I → W → Option (Outcome HarnessError Trace × Progress W I)
  unfolding start
  run_inner fuel tick_ns realtime r w =
      run_loop ops sleep r.ctx tick_ns realtime fuel (Scheduler.new r.schedule 0) (start r w)

  unfoldable pub run : ℕ → ℕ → Runner I → W → Option (Outcome HarnessError Trace × Progress W I)
  unfolding run_inner
  run fuel tick_ns = run_inner fuel tick_ns false

  unfoldable pub run_realtime :
      ℕ → ℕ → Runner I → W → Option (Outcome HarnessError Trace × Progress W I)
  unfolding run_inner
  run_realtime fuel tick_ns = run_inner fuel tick_ns true

module _ {W I : Type 0} (ops : FaultInjector W I) where
  -- `Runner::is_armed`.
  unfoldable pub is_armed : Text → Registry I → Option Bool
  is_armed fault_id injectors = elim (lookup fault_id injectors) [
    | none ↦ none
    | some i ↦ some (ops.is_armed i)
  ]

  -- The error that is kept, the first.
  unfoldable pub keep_first :
      Option HarnessError → Outcome HarnessError (Unit {0}) → Option HarnessError
  keep_first (some e) r = some e
  keep_first none (ok _) = none
  keep_first none (err e) = some e
  keep_first none panic = none

  -- The loop of `teardown` over the injectors. A panic of an injector leaves the loop, and the
  -- flag that comes back says so.
  unfoldable pub teardown_loop :
      Registry I
      → W
      → Option HarnessError
      → Outcome HarnessError (Option HarnessError) × Registry I × W
  teardown_loop [] w first = (ok first, [], w)
  teardown_loop ((f, i) ∷ rest) w first = elim (ops.is_armed i) [
    | false ↦ let (r, rest', w') = teardown_loop rest w first in (r, (f, i) ∷ rest', w')
    | true ↦
        let (r, i', w') = ops.disarm i w in
        let tail = teardown_loop rest w' (keep_first first r) in
        elim r [ panic ↦ (panic, (f, i') ∷ rest, w') | _ ↦ (tail.0, (f, i') ∷ tail.1, tail.2) ]
  ]

  -- `first_err.map_or(Ok(()), Err)`.
  unfoldable pub report :
      Outcome HarnessError (Option HarnessError) → Outcome HarnessError (Unit {0})
  report (ok none) = ok tt
  report (ok (some e)) = err e
  report (err e) = err e
  report panic = panic

  unfoldable pub teardown : Registry I → W → Outcome HarnessError (Unit {0}) × Registry I × W
  unfolding teardown_loop report keep_first
  teardown injectors w =
      let (r, injectors', w') = teardown_loop injectors w none in (report r, injectors', w')

  -- `Drop for Runner`: the result of the teardown is thrown away.
  drop_runner : Registry I → W → Registry I × W
  drop_runner injectors w = let (_, injectors', w') = teardown injectors w in (injectors', w')
