-- ===== src/Cli/Build/Fresh.antt =====
-- What `build_injector` makes is not armed, and is named as the config names it.
use blackswan_harness.Prelude.{false, Text, ◌≡◌, refl}
use blackswan_harness.Kernel.Xdp
use blackswan_harness.Kernel.Xdp.{xdp_injector}
use blackswan_harness.Kernel.CgroupMem
use blackswan_harness.Kernel.CgroupMem.{cgroup_injector}
use blackswan_harness.Kernel.TimeSkew
use blackswan_harness.Kernel.TimeSkew.{time_skew_injector}
use blackswan_harness.Fix.Injector
use blackswan_harness.Fix.Injector.{fix_fault_injector}
use blackswan_harness.Cli.Config.{
  InjectorConfig, xdp_packet_loss, xdp_corruption, xdp_partition, cgroup_memory_pressure, time_skew,
  fix_silent_reject, fix_ack_without_execution, fix_rate_limit_throttle,
  fix_execution_report_price_mutation,
}
use blackswan_harness.Cli.Build.{Hosts, build_injector, dyn_id, dyn_is_armed, dyn_injector}

module _ {W B P : Type 0} (hosts : Hosts W B P) where
  pub build_injector-fresh :
      (id : Text) (config : InjectorConfig)
      → ((dyn_injector hosts).id (build_injector id config) ≡ id)
        × ((dyn_injector hosts).is_armed (build_injector id config) ≡ false)
  unfolding dyn_injector build_injector dyn_id dyn_is_armed xdp_injector cgroup_injector
      time_skew_injector fix_fault_injector TimeSkew.is_armed Xdp.new CgroupMem.new TimeSkew.new
      Injector.new
  build_injector-fresh id (xdp_packet_loss iface n) = (refl, refl)
  build_injector-fresh id (xdp_corruption iface n offset mask) = (refl, refl)
  build_injector-fresh id (xdp_partition iface ip port) = (refl, refl)
  build_injector-fresh id (cgroup_memory_pressure pid limit mode) = (refl, refl)
  build_injector-fresh id (time_skew argv m b) = (refl, refl)
  build_injector-fresh id (fix_silent_reject l u) = (refl, refl)
  build_injector-fresh id (fix_ack_without_execution l u) = (refl, refl)
  build_injector-fresh id (fix_rate_limit_throttle l u n) = (refl, refl)
  build_injector-fresh id (fix_execution_report_price_mutation l u p) = (refl, refl)
