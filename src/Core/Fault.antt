-- ===== src/Core/Fault.antt =====
-- crates/core/src/fault.rs. An injector acts on the world `W` outside the program (the kernel, the
-- file system, processes), which its methods are handed and hand back.
pub mod Reach
use blackswan_harness.Prelude.{ℕ, Bool, true, false, Text, Outcome, ok, ◌≡◌}
use blackswan_harness.Core.Error.{HarnessError}
use blackswan_harness.Core.Clock.{Clock}

pub record FaultContext : Type 0 where
  pub clock : Clock
  pub seed : ℕ

-- The trait, over the type of an injector's own state.
pub record FaultInjector (W I : Type 0) : Type 0 where
  pub id : I → Text
  pub arm : FaultContext → I → W → Outcome HarnessError (Unit {0}) × I × W
  pub disarm : I → W → Outcome HarnessError (Unit {0}) × I × W
  pub is_armed : I → Bool

-- What the runner relies on: a call that succeeds leaves the fault reported as on or off, and no call
-- changes the injector's name. The comments of the trait ask for more, which is in `IsIdempotent`.
pub record IsFaultInjector {W I : Type 0} (ops : FaultInjector W I) : Type 0 where
  pub armed :
      (ctx : FaultContext) (i : I) (w : W)
      → (ops.arm ctx i w).0 ≡ ok tt
      → ops.is_armed (ops.arm ctx i w).1 ≡ true
  pub disarmed :
      (i : I) (w : W) → (ops.disarm i w).0 ≡ ok tt → ops.is_armed (ops.disarm i w).1 ≡ false
  pub id-arm : (ctx : FaultContext) (i : I) (w : W) → ops.id (ops.arm ctx i w).1 ≡ ops.id i
  pub id-disarm : (i : I) (w : W) → ops.id (ops.disarm i w).1 ≡ ops.id i

-- What the comments of the trait ask of a call made twice: behind an arm that succeeds another arm
-- leaves the injector as it is, and so does a disarm behind a disarm, whatever the context, the
-- world and the result of the second call. The comments ask too that a second arm be no error and
-- have no effect outside, which is not in here.
pub record IsIdempotent {W I : Type 0} (ops : FaultInjector W I) : Type 0 where
  pub rearmed :
      (ctx ctx' : FaultContext) (i : I) (w w' : W)
      → (ops.arm ctx i w).0 ≡ ok tt
      → (ops.arm ctx' (ops.arm ctx i w).1 w').1 ≡ (ops.arm ctx i w).1
  pub redisarmed :
      (i : I) (w w' : W)
      → (ops.disarm i w).0 ≡ ok tt
      → (ops.disarm (ops.disarm i w).1 w').1 ≡ (ops.disarm i w).1
