-- ===== src/Cli/Build.antt =====
-- crates/cli/src/build.rs: the injector that an entry of the config names. A `Box<dyn FaultInjector>`
-- is a sum of the injectors, and its methods are those of the one that it holds.
pub mod Contract
pub mod Again
pub mod Fresh
use blackswan_harness.Prelude.{ℕ, Bool, Text, Outcome}
use blackswan_harness.Core.Error.{HarnessError}
use blackswan_harness.Core.Fault.{FaultContext, FaultInjector}
use blackswan_harness.Kernel.Bpf.{Aya}
use blackswan_harness.Kernel.Files.{Files}
use blackswan_harness.Kernel.Xdp
use blackswan_harness.Kernel.Xdp.{
  XdpProgram, XdpInjector, Corruption, Partition, pktloss, corrupt, partition, xdp_injector,
}
use blackswan_harness.Kernel.CgroupMem
use blackswan_harness.Kernel.CgroupMem.{CgroupInjector, PressureMode, cgroup_injector}
use blackswan_harness.Kernel.TimeSkew
use blackswan_harness.Kernel.TimeSkew.{Processes, TimeSkewInjector, time_skew_injector}
use blackswan_harness.Fix.Adapters.{RateLimitThrottle, PriceMutation, new_throttle}
use blackswan_harness.Fix.Injector
use blackswan_harness.Fix.Injector.{Host, FixFaultInjector, fix_fault_injector}
use blackswan_harness.Cli.Config
use blackswan_harness.Cli.Config.{
  PressureModeConfig, InjectorConfig, xdp_packet_loss, xdp_corruption, xdp_partition,
  cgroup_memory_pressure, time_skew, fix_silent_reject, fix_ack_without_execution,
  fix_rate_limit_throttle, fix_execution_report_price_mutation,
}

-- What the injectors act through.
pub record Hosts (W B P : Type 0) : Type 0 where
  pub aya : Aya W B
  pub files : Files W
  pub processes : Processes W P
  pub host : Host W

-- An `Arc<dyn ProtocolAdapter>`, as the FIX variants make them.
pub data FixAdapter : Type 0 where
  silent_reject ack_without_execution : FixAdapter
  rate_limit_throttle : RateLimitThrottle → FixAdapter
  price_mutation : PriceMutation → FixAdapter

-- A `Box<dyn FaultInjector>`.
pub data AnyInjector (B P : Type 0) : Type 0 where
  packet_loss : XdpInjector B ℕ → AnyInjector B P
  corruption : XdpInjector B Corruption → AnyInjector B P
  partitioning : XdpInjector B Partition → AnyInjector B P
  memory_pressure : CgroupInjector → AnyInjector B P
  skew : TimeSkewInjector P → AnyInjector B P
  fix : FixFaultInjector → FixAdapter → AnyInjector B P

unfoldable pub pressure_mode : PressureModeConfig → PressureMode
pressure_mode Config.hard = CgroupMem.hard
pressure_mode Config.soft = CgroupMem.soft

unfoldable pub build_injector : {B P : Type 0} → Text → InjectorConfig → AnyInjector B P
unfolding pressure_mode
build_injector id (xdp_packet_loss iface drop_every_n) = packet_loss (Xdp.new id iface drop_every_n)
build_injector id (xdp_corruption iface corrupt_every_n offset mask) =
    corruption (
      Xdp.new id iface (record { corrupt_every_n = corrupt_every_n; offset = offset; mask = mask }))
build_injector id (xdp_partition iface src_ip src_port) =
    partitioning (Xdp.new id iface (record { src_ip = src_ip; src_port = src_port }))
build_injector id (cgroup_memory_pressure pid limit_bytes mode) =
    memory_pressure (CgroupMem.new id pid limit_bytes (pressure_mode mode))
build_injector id (time_skew argv monotonic_offset_secs boottime_offset_secs) =
    skew (TimeSkew.new id argv monotonic_offset_secs boottime_offset_secs)
build_injector id (fix_silent_reject listen_addr upstream_addr) =
    fix (Injector.new id listen_addr upstream_addr) silent_reject
build_injector id (fix_ack_without_execution listen_addr upstream_addr) =
    fix (Injector.new id listen_addr upstream_addr) ack_without_execution
build_injector id (fix_rate_limit_throttle listen_addr upstream_addr threshold) =
    fix (Injector.new id listen_addr upstream_addr) (rate_limit_throttle (new_throttle threshold))
build_injector id (fix_execution_report_price_mutation listen_addr upstream_addr mutated_price) =
    fix (Injector.new id listen_addr upstream_addr)
      (price_mutation (record { mutated_price = mutated_price }))

-- A result of one kind of injector.
abbrev boxed :
    {W I A : Type 0}
    → (I → A)
    → Outcome HarnessError (Unit {0}) × I × W
    → Outcome HarnessError (Unit {0}) × A × W
boxed into (r, i, w) = (r, into i, w)

module _ {W B P : Type 0} (hosts : Hosts W B P) where
  unfoldable pub dyn_id : AnyInjector B P → Text
  dyn_id (packet_loss i) = (xdp_injector hosts.aya pktloss).id i
  dyn_id (corruption i) = (xdp_injector hosts.aya corrupt).id i
  dyn_id (partitioning i) = (xdp_injector hosts.aya partition).id i
  dyn_id (memory_pressure i) = (cgroup_injector hosts.files).id i
  dyn_id (skew i) = (time_skew_injector hosts.processes).id i
  dyn_id (fix i adapter) = (fix_fault_injector hosts.host).id i

  unfoldable pub dyn_arm :
      FaultContext → AnyInjector B P → W → Outcome HarnessError (Unit {0}) × AnyInjector B P × W
  dyn_arm ctx (packet_loss i) w = boxed packet_loss ((xdp_injector hosts.aya pktloss).arm ctx i w)
  dyn_arm ctx (corruption i) w = boxed corruption ((xdp_injector hosts.aya corrupt).arm ctx i w)
  dyn_arm ctx (partitioning i) w =
      boxed partitioning ((xdp_injector hosts.aya partition).arm ctx i w)
  dyn_arm ctx (memory_pressure i) w =
      boxed memory_pressure ((cgroup_injector hosts.files).arm ctx i w)
  dyn_arm ctx (skew i) w = boxed skew ((time_skew_injector hosts.processes).arm ctx i w)
  dyn_arm ctx (fix i adapter) w =
      boxed (λ j. fix j adapter) ((fix_fault_injector hosts.host).arm ctx i w)

  unfoldable pub dyn_disarm :
      AnyInjector B P → W → Outcome HarnessError (Unit {0}) × AnyInjector B P × W
  dyn_disarm (packet_loss i) w = boxed packet_loss ((xdp_injector hosts.aya pktloss).disarm i w)
  dyn_disarm (corruption i) w = boxed corruption ((xdp_injector hosts.aya corrupt).disarm i w)
  dyn_disarm (partitioning i) w = boxed partitioning ((xdp_injector hosts.aya partition).disarm i w)
  dyn_disarm (memory_pressure i) w =
      boxed memory_pressure ((cgroup_injector hosts.files).disarm i w)
  dyn_disarm (skew i) w = boxed skew ((time_skew_injector hosts.processes).disarm i w)
  dyn_disarm (fix i adapter) w =
      boxed (λ j. fix j adapter) ((fix_fault_injector hosts.host).disarm i w)

  unfoldable pub dyn_is_armed : AnyInjector B P → Bool
  dyn_is_armed (packet_loss i) = (xdp_injector hosts.aya pktloss).is_armed i
  dyn_is_armed (corruption i) = (xdp_injector hosts.aya corrupt).is_armed i
  dyn_is_armed (partitioning i) = (xdp_injector hosts.aya partition).is_armed i
  dyn_is_armed (memory_pressure i) = (cgroup_injector hosts.files).is_armed i
  dyn_is_armed (skew i) = (time_skew_injector hosts.processes).is_armed i
  dyn_is_armed (fix i adapter) = (fix_fault_injector hosts.host).is_armed i

  unfoldable pub dyn_injector : FaultInjector W (AnyInjector B P)
  dyn_injector = record { id = dyn_id; arm = dyn_arm; disarm = dyn_disarm; is_armed = dyn_is_armed }
