-- ===== src/Cli/Main/Execute.antt =====
-- crates/cli/src/main.rs: `execute_scenario`, with what it calls. What the drop of an injector itself
-- does behind that of the runner, such as detaching a program, is not modelled.
use blackswan_harness.Prelude.{
  ℕ, Bool, if◌then◌else◌, Text, codes, Outcome, ok, err, panic, Option, none, some, [], ◌++◌, map,
  ◌⊎◌, inl, inr,
}
use blackswan_harness.Core.Error.{HarnessError}
use blackswan_harness.Core.Clock.{system_clock}
use blackswan_harness.Core.Scenario.{Scenario}
use blackswan_harness.Core.Fault.{FaultContext, FaultInjector}
use blackswan_harness.Replay.Schedule.{validate}
use blackswan_harness.Replay.Trace.{Trace}
use blackswan_harness.Replay.Trace.Store.{Json, Disk}
use blackswan_harness.Replay.Runner
use blackswan_harness.Replay.Runner.{Runner, Progress, run, run_realtime, teardown}
use blackswan_harness.Replay.Runner.Table.{Registry}
use blackswan_harness.Cli.Config.{Config, InjectorConfig}
use blackswan_harness.Cli.Build.{AnyInjector, build_injector}

-- What the commands ask of the libraries and of the machine: reading a file, `toml::from_str`, the
-- derived `{:?}` of errors, JSON, the files of traces, and `sleep`.
pub record Shell (W : Type 0) : Type 0 where
  pub read_to_string : Text → W → Text ⊎ Text
  pub from_toml : Text → Text ⊎ Config
  pub debug : HarnessError → Text
  pub json : Json
  pub disk : Disk W
  pub sleep : ℕ → W → W

unfoldable pub build_scenario_and_injectors :
    {B P : Type 0} → Config → Scenario × Registry (AnyInjector B P)
build_scenario_and_injectors cfg = (
  record { name = cfg.name; seed = cfg.seed; steps = cfg.schedule },
  map (λ (e : Text × InjectorConfig). (e.0, build_injector e.0 e.1)) cfg.injectors,
)

-- How `execute_scenario` ends: with a trace behind the drop of the runner, in `die` with a message, or
-- in a panic. The injectors are those that are left, in the state that they are left in.
pub data Executed (W I : Type 0) : Type 0 where
  returned : Trace → Registry I → W → Executed W I
  died : Text → Registry I → W → Executed W I
  unwound : Registry I → W → Executed W I

-- An error is the message that it dies with.
unfoldable pub load_config : {W : Type 0} → Shell W → Text → W → Outcome Text Config
load_config shell path w = elim (shell.read_to_string path w) [
  | inl e ↦ err (codes "reading " ++ (path ++ (codes ": " ++ e)))
  | inr text ↦ elim (shell.from_toml text) [
    | inl e ↦ err (codes "parsing " ++ (path ++ (codes ": " ++ e)))
    | inr cfg ↦ ok cfg
  ]
]

unfoldable pub context : Config → FaultContext
context cfg = record { clock = system_clock; seed = cfg.seed }

module _ {W B P : Type 0} (shell : Shell W) (ops : FaultInjector W (AnyInjector B P)) where
  -- `Drop for Runner` behind a trace: its result is thrown away, and a panic of it unwinds.
  unfoldable pub behind_trace :
      Trace
      → Outcome HarnessError (Unit {0}) × Registry (AnyInjector B P) × W
      → Executed W (AnyInjector B P)
  behind_trace t (ok _, left, w) = returned t left w
  behind_trace t (err _, left, w) = returned t left w
  behind_trace t (panic, left, w) = unwound left w

  unfoldable pub finish :
      Outcome HarnessError Trace × Progress W (AnyInjector B P) → Executed W (AnyInjector B P)
  unfolding behind_trace
  finish (ok t, p) = behind_trace t (teardown ops p.injectors p.world)
  finish (err e, p) = died (codes "run failed: " ++ shell.debug e) p.injectors p.world
  finish (panic, p) = let (_, left, w) = teardown ops p.injectors p.world in unwound left w

  unfoldable pub drive :
      ℕ
      → ℕ
      → Bool
      → Runner (AnyInjector B P)
      → W
      → Option (Outcome HarnessError Trace × Progress W (AnyInjector B P))
  drive fuel tick_ns realtime runner w =
      if realtime
      then run_realtime ops shell.sleep fuel tick_ns runner w
      else run ops shell.sleep fuel tick_ns runner w

  unfoldable pub execute_config : ℕ → Config → ℕ → Bool → W → Option (Executed W (AnyInjector B P))
  execute_config fuel cfg tick_ns realtime w =
      let (scenario, injectors) = build_scenario_and_injectors cfg in
      elim (validate scenario) [
        | err e ↦ some (died (codes "invalid scenario: " ++ shell.debug e) injectors w)
        | panic ↦ some (unwound injectors w)
        | ok schedule ↦ elim (Runner.new schedule injectors (context cfg)) [
          | err e ↦ some (died (codes "setting up runner: " ++ shell.debug e) injectors w)
          | panic ↦ some (unwound injectors w)
          | ok runner ↦ elim (drive fuel tick_ns realtime runner w) [
            | none ↦ none
            | some ended ↦ some (finish ended)
          ]
        ]
      ]

  unfoldable pub execute_scenario : ℕ → Text → ℕ → Bool → W → Option (Executed W (AnyInjector B P))
  execute_scenario fuel path tick_ns realtime w = elim (load_config shell path w) [
    | err why ↦ some (died why [] w)
    | panic ↦ some (unwound [] w)
    | ok cfg ↦ execute_config fuel cfg tick_ns realtime w
  ]
