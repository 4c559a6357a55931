-- ===== src/Cli/Config.antt =====
-- crates/cli/src/config.rs: a scenario file. Its `HashMap` is an association list in any order.
use blackswan_harness.Prelude.{ℕ, Text, List}
use blackswan_harness.Core.Scenario.{ScenarioStep}
use blackswan_harness.Replay.Runner.Table.{Registry}
use blackswan_harness.Kernel.Xdp.{IpAddr}
use blackswan_harness.Kernel.TimeSkew.{ℤ}

pub data PressureModeConfig : Type 0 where
  hard soft : PressureModeConfig

pub data InjectorConfig : Type 0 where
  xdp_packet_loss : (iface : Text) (drop_every_n : ℕ) → InjectorConfig
  xdp_corruption : (iface : Text) (corrupt_every_n offset mask : ℕ) → InjectorConfig
  xdp_partition : (iface : Text) (src_ip : IpAddr) (src_port : ℕ) → InjectorConfig
  cgroup_memory_pressure : (pid limit_bytes : ℕ) (mode : PressureModeConfig) → InjectorConfig
  time_skew : (argv : List Text) (monotonic_offset_secs boottime_offset_secs : ℤ) → InjectorConfig
  fix_silent_reject fix_ack_without_execution : (listen_addr upstream_addr : Text) → InjectorConfig
  fix_rate_limit_throttle : (listen_addr upstream_addr : Text) (threshold : ℕ) → InjectorConfig
  fix_execution_report_price_mutation :
      (listen_addr upstream_addr mutated_price : Text) → InjectorConfig

pub record Config : Type 0 where
  pub name : Text
  pub seed : ℕ
  pub injectors : Registry InjectorConfig
  pub schedule : List ScenarioStep
