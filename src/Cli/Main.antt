-- ===== src/Cli/Main.antt =====
-- crates/cli/src/main.rs: the commands. `die` ends the process where it is called, and drops nothing.
-- Parsing of the command line (`clap`) is not modelled: a command is its parsed arguments, and a path
-- is a text. What is printed is assumed to be written. The fuel is that of the runner's loop.
pub mod Print
pub mod Execute
pub mod Steps
pub mod Strict
pub mod Replayed
pub mod Reproduce
pub mod Death
pub mod Clean
mod Tests
use Print.{newline, print_trace_summary}
use Execute.{Shell, Executed, returned, died, unwound, execute_scenario}
use blackswan_harness.Prelude.{
  ℕ, true, false, if◌then◌else◌, Text, codes, ok, err, panic, Option, none, some, [], ◌++◌,
}
use blackswan_harness.Core.Fault.{FaultInjector}
use blackswan_harness.Replay.Trace.{Trace, matches_schedule}
use blackswan_harness.Replay.Trace.Store.{save, load}
use blackswan_harness.Replay.Runner.Table.{Registry}
use blackswan_harness.Cli.Build.{Hosts, AnyInjector, dyn_injector}

-- How the process ends: by the end of `main`, with status 0, by `die`, with status 1 and a last line
-- on stderr, or by a panic.
pub data Ending : Type 0 where
  success panicked : Ending
  failure : Text → Ending

pub record Report (W I : Type 0) : Type 0 where
  pub ending : Ending
  pub stdout : Text
  pub left : Registry I
  pub world : W

module _ {W B P : Type 0} (shell : Shell W) (ops : FaultInjector W (AnyInjector B P)) where
  -- The end of `run`: the trace is printed, and saved where that was asked for.
  pub keep_trace : Option Text → Executed W (AnyInjector B P) → Report W (AnyInjector B P)
  keep_trace out (died why left w) = record {
    ending = failure why;
    stdout = [];
    left = left;
    world = w;
  }
  keep_trace out (unwound left w) = record {
    ending = panicked;
    stdout = [];
    left = left;
    world = w;
  }
  keep_trace none (returned t left w) = record {
    ending = success;
    stdout = print_trace_summary t;
    left = left;
    world = w;
  }
  keep_trace (some out) (returned t left w) =
      let (saved, w') = save shell.json shell.disk t out w in
      elim saved [
        | ok _ ↦ record {
          ending = success;
          stdout = print_trace_summary t ++ (codes "trace saved to " ++ (out ++ newline));
          left = left;
          world = w';
        }
        | err e ↦ record {
          ending = failure (codes "saving trace: " ++ shell.debug e);
          stdout = print_trace_summary t;
          left = left;
          world = w';
        }
        | panic ↦ record {
          ending = panicked;
          stdout = print_trace_summary t;
          left = left;
          world = w';
        }
      ]

  -- `Command::Run`.
  pub run_command : ℕ → Text → ℕ → Option Text → W → Option (Report W (AnyInjector B P))
  run_command fuel config tick_ns trace_out w =
      elim (execute_scenario shell ops fuel config tick_ns true w) [
        | none ↦ none
        | some ended ↦ some (keep_trace trace_out ended)
      ]

  -- The end of `replay`: the trace is printed and compared.
  pub compare_trace : Text → Trace → Executed W (AnyInjector B P) → Report W (AnyInjector B P)
  compare_trace against baseline (died why left w) = record {
    ending = failure why;
    stdout = [];
    left = left;
    world = w;
  }
  compare_trace against baseline (unwound left w) = record {
    ending = panicked;
    stdout = [];
    left = left;
    world = w;
  }
  compare_trace against baseline (returned t left w) =
      if matches_schedule t baseline
      then record {
        ending = success;
        stdout =
            print_trace_summary t ++ (codes "MATCH: this run reproduces " ++ (against ++ newline));
        left = left;
        world = w;
      }
      else record {
        ending = failure (codes "MISMATCH: this run does not reproduce " ++ against);
        stdout = print_trace_summary t;
        left = left;
        world = w;
      }

  -- `Command::Replay`.
  pub replay_command : ℕ → Text → ℕ → Text → W → Option (Report W (AnyInjector B P))
  replay_command fuel config tick_ns against w = elim (load shell.json shell.disk against w) [
    | err e ↦ some (record {
      ending = failure (codes "loading baseline " ++ (against ++ (codes ": " ++ shell.debug e)));
      stdout = [];
      left = [];
      world = w;
    })
    | panic ↦ some (record { ending = panicked; stdout = []; left = []; world = w })
    | ok baseline ↦ elim (execute_scenario shell ops fuel config tick_ns false w) [
      | none ↦ none
      | some ended ↦ some (compare_trace against baseline ended)
    ]
  ]

-- `Command`, by its arguments.
pub data Command : Type 0 where
  run_config : (config : Text) (tick_ns : ℕ) (trace_out : Option Text) → Command
  replay_config : (config : Text) (tick_ns : ℕ) (against : Text) → Command

-- `main`, on the hosts that the injectors act through.
pub main :
    {W B P : Type 0} → Hosts W B P → Shell W → ℕ → Command → W → Option (Report W (AnyInjector B P))
main hosts shell fuel (run_config config tick_ns trace_out) w =
    run_command shell (dyn_injector hosts) fuel config tick_ns trace_out w
main hosts shell fuel (replay_config config tick_ns against) w =
    replay_command shell (dyn_injector hosts) fuel config tick_ns against w
