-- ===== src/Cli/Build/Contract.antt =====
-- Every injector that a config can name is a fault injector as the runner needs it.
use blackswan_harness.Prelude.{true, false, ok, ◌≡◌}
use blackswan_harness.Core.Fault.{FaultContext, IsFaultInjector}
use blackswan_harness.Kernel.Xdp.{pktloss, corrupt, partition}
use blackswan_harness.Kernel.Xdp.Contract.{xdp_injector-IsFaultInjector}
use blackswan_harness.Kernel.CgroupMem.Contract.{cgroup_injector-IsFaultInjector}
use blackswan_harness.Kernel.TimeSkew.Lifecycle.{time_skew_injector-IsFaultInjector}
use blackswan_harness.Fix.Injector.Cycle.{fix_fault_injector-IsFaultInjector}
use blackswan_harness.Cli.Build.{
  Hosts, AnyInjector, packet_loss, corruption, partitioning, memory_pressure, skew, fix, dyn_id,
  dyn_arm, dyn_disarm, dyn_is_armed, dyn_injector,
}

module _ {W B P : Type 0} (hosts : Hosts W B P) where
  dyn_arm-armed :
      (ctx : FaultContext) (i : AnyInjector B P) (w : W)
      → (dyn_arm hosts ctx i w).0 ≡ ok tt
      → dyn_is_armed hosts (dyn_arm hosts ctx i w).1 ≡ true
  unfolding dyn_arm dyn_is_armed
  dyn_arm-armed ctx (packet_loss i) w =
      (xdp_injector-IsFaultInjector hosts.aya pktloss).armed ctx i w
  dyn_arm-armed ctx (corruption i) w =
      (xdp_injector-IsFaultInjector hosts.aya corrupt).armed ctx i w
  dyn_arm-armed ctx (partitioning i) w =
      (xdp_injector-IsFaultInjector hosts.aya partition).armed ctx i w
  dyn_arm-armed ctx (memory_pressure i) w =
      (cgroup_injector-IsFaultInjector hosts.files).armed ctx i w
  dyn_arm-armed ctx (skew i) w = (time_skew_injector-IsFaultInjector hosts.processes).armed ctx i w
  dyn_arm-armed ctx (fix i adapter) w =
      (fix_fault_injector-IsFaultInjector hosts.host).armed ctx i w

  dyn_disarm-disarmed :
      (i : AnyInjector B P) (w : W)
      → (dyn_disarm hosts i w).0 ≡ ok tt
      → dyn_is_armed hosts (dyn_disarm hosts i w).1 ≡ false
  unfolding dyn_disarm dyn_is_armed
  dyn_disarm-disarmed (packet_loss i) w =
      (xdp_injector-IsFaultInjector hosts.aya pktloss).disarmed i w
  dyn_disarm-disarmed (corruption i) w =
      (xdp_injector-IsFaultInjector hosts.aya corrupt).disarmed i w
  dyn_disarm-disarmed (partitioning i) w =
      (xdp_injector-IsFaultInjector hosts.aya partition).disarmed i w
  dyn_disarm-disarmed (memory_pressure i) w =
      (cgroup_injector-IsFaultInjector hosts.files).disarmed i w
  dyn_disarm-disarmed (skew i) w = (time_skew_injector-IsFaultInjector hosts.processes).disarmed i w
  dyn_disarm-disarmed (fix i adapter) w =
      (fix_fault_injector-IsFaultInjector hosts.host).disarmed i w

  dyn_id-arm :
      (ctx : FaultContext) (i : AnyInjector B P) (w : W)
      → dyn_id hosts (dyn_arm hosts ctx i w).1 ≡ dyn_id hosts i
  unfolding dyn_id dyn_arm
  dyn_id-arm ctx (packet_loss i) w = (xdp_injector-IsFaultInjector hosts.aya pktloss).id-arm ctx i w
  dyn_id-arm ctx (corruption i) w = (xdp_injector-IsFaultInjector hosts.aya corrupt).id-arm ctx i w
  dyn_id-arm ctx (partitioning i) w =
      (xdp_injector-IsFaultInjector hosts.aya partition).id-arm ctx i w
  dyn_id-arm ctx (memory_pressure i) w =
      (cgroup_injector-IsFaultInjector hosts.files).id-arm ctx i w
  dyn_id-arm ctx (skew i) w = (time_skew_injector-IsFaultInjector hosts.processes).id-arm ctx i w
  dyn_id-arm ctx (fix i adapter) w = (fix_fault_injector-IsFaultInjector hosts.host).id-arm ctx i w

  dyn_id-disarm :
      (i : AnyInjector B P) (w : W) → dyn_id hosts (dyn_disarm hosts i w).1 ≡ dyn_id hosts i
  unfolding dyn_id dyn_disarm
  dyn_id-disarm (packet_loss i) w = (xdp_injector-IsFaultInjector hosts.aya pktloss).id-disarm i w
  dyn_id-disarm (corruption i) w = (xdp_injector-IsFaultInjector hosts.aya corrupt).id-disarm i w
  dyn_id-disarm (partitioning i) w =
      (xdp_injector-IsFaultInjector hosts.aya partition).id-disarm i w
  dyn_id-disarm (memory_pressure i) w = (cgroup_injector-IsFaultInjector hosts.files).id-disarm i w
  dyn_id-disarm (skew i) w = (time_skew_injector-IsFaultInjector hosts.processes).id-disarm i w
  dyn_id-disarm (fix i adapter) w = (fix_fault_injector-IsFaultInjector hosts.host).id-disarm i w

-- Each injector that a config can name, the three of XDP, the memory limit, the clock skew and the
-- four of FIX, meets what the runner relies on (IsFaultInjector), whatever the kernel, the files,
-- the processes and the sockets answer: an arm or a disarm that succeeds leaves it armed or
-- disarmed as asked, and no call changes its name.
pub dyn_injector-IsFaultInjector :
    {W B P : Type 0} (hosts : Hosts W B P) → IsFaultInjector (dyn_injector hosts)
unfolding dyn_injector
dyn_injector-IsFaultInjector hosts = record {
  armed = dyn_arm-armed hosts;
  disarmed = dyn_disarm-disarmed hosts;
  id-arm = dyn_id-arm hosts;
  id-disarm = dyn_id-disarm hosts;
}
