-- ===== src/Cli/Build/Again.antt =====
-- The injectors of a config, called twice.
use blackswan_harness.Prelude.{ok, ◌≡◌, ap}
use blackswan_harness.Core.Fault.{FaultContext, IsFaultInjector, IsIdempotent}
use blackswan_harness.Kernel.Xdp.{pktloss, corrupt, partition}
use blackswan_harness.Kernel.Xdp.Again.{xdp_injector-IsIdempotent}
use blackswan_harness.Kernel.CgroupMem.Again.{cgroup_injector-IsIdempotent}
use blackswan_harness.Kernel.TimeSkew.Lifecycle.{time_skew_injector-IsIdempotent}
use blackswan_harness.Fix.Injector.Cycle.{fix_fault_injector-IsIdempotent}
use blackswan_harness.Cli.Build.{
  Hosts, AnyInjector, packet_loss, corruption, partitioning, memory_pressure, skew, fix, dyn_arm,
  dyn_disarm, dyn_injector,
}
use blackswan_harness.Cli.Build.Contract.{dyn_injector-IsFaultInjector}

module _ {W B P : Type 0} (hosts : Hosts W B P) where
  dyn_arm-same :
      (ctx ctx' : FaultContext) (i : AnyInjector B P) (w w' : W)
      → (dyn_arm hosts ctx i w).0 ≡ ok tt
      → (dyn_arm hosts ctx' (dyn_arm hosts ctx i w).1 w').1 ≡ (dyn_arm hosts ctx i w).1
  unfolding dyn_arm
  dyn_arm-same ctx ctx' (packet_loss i) w w' h =
      ap packet_loss ((xdp_injector-IsIdempotent hosts.aya pktloss).rearmed ctx ctx' i w w' h)
  dyn_arm-same ctx ctx' (corruption i) w w' h =
      ap corruption ((xdp_injector-IsIdempotent hosts.aya corrupt).rearmed ctx ctx' i w w' h)
  dyn_arm-same ctx ctx' (partitioning i) w w' h =
      ap partitioning ((xdp_injector-IsIdempotent hosts.aya partition).rearmed ctx ctx' i w w' h)
  dyn_arm-same ctx ctx' (memory_pressure i) w w' h =
      ap memory_pressure ((cgroup_injector-IsIdempotent hosts.files).rearmed ctx ctx' i w w' h)
  dyn_arm-same ctx ctx' (skew i) w w' h =
      ap skew ((time_skew_injector-IsIdempotent hosts.processes).rearmed ctx ctx' i w w' h)
  dyn_arm-same ctx ctx' (fix i adapter) w w' h =
      ap (λ j. fix j adapter)
        ((fix_fault_injector-IsIdempotent hosts.host).rearmed ctx ctx' i w w' h)

  dyn_disarm-same :
      (i : AnyInjector B P) (w w' : W)
      → (dyn_disarm hosts i w).0 ≡ ok tt
      → (dyn_disarm hosts (dyn_disarm hosts i w).1 w').1 ≡ (dyn_disarm hosts i w).1
  unfolding dyn_disarm
  dyn_disarm-same (packet_loss i) w w' h =
      ap packet_loss ((xdp_injector-IsIdempotent hosts.aya pktloss).redisarmed i w w' h)
  dyn_disarm-same (corruption i) w w' h =
      ap corruption ((xdp_injector-IsIdempotent hosts.aya corrupt).redisarmed i w w' h)
  dyn_disarm-same (partitioning i) w w' h =
      ap partitioning ((xdp_injector-IsIdempotent hosts.aya partition).redisarmed i w w' h)
  dyn_disarm-same (memory_pressure i) w w' h =
      ap memory_pressure ((cgroup_injector-IsIdempotent hosts.files).redisarmed i w w' h)
  dyn_disarm-same (skew i) w w' h =
      ap skew ((time_skew_injector-IsIdempotent hosts.processes).redisarmed i w w' h)
  dyn_disarm-same (fix i adapter) w w' h =
      ap (λ j. fix j adapter) ((fix_fault_injector-IsIdempotent hosts.host).redisarmed i w w' h)

-- Each injector that a config can name, the three of XDP, the memory limit, the clock skew and the
-- four of FIX, whatever the kernel, the files, the processes and the sockets answer: an arm or a
-- disarm that succeeds leaves it reporting that it is armed or that it is not, no call changes its
-- name, and behind an arm that succeeds another arm leaves the injector as it is, whether it
-- succeeds or not, as another disarm does behind a disarm. That a second arm is no error is not
-- stated.
pub dyn_injector-IsIdempotent :
    {W B P : Type 0} (hosts : Hosts W B P)
    → IsFaultInjector (dyn_injector hosts) × IsIdempotent (dyn_injector hosts)
unfolding dyn_injector
dyn_injector-IsIdempotent hosts = (
  dyn_injector-IsFaultInjector hosts,
  record { rearmed = dyn_arm-same hosts; redisarmed = dyn_disarm-same hosts },
)
