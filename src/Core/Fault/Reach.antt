-- ===== src/Core/Fault/Reach.antt =====
-- What a fault injector comes to by calls of its methods, with anything else happening in between.
use blackswan_harness.Core.Fault.{FaultContext, FaultInjector}

-- The states that are reached from a first one: `elsewhere` is a step of the world outside.
pub data Reach {W I : Type 0} (ops : FaultInjector W I) (first : I) : I → W → Type 0 where
  begin : (w : W) → Reach ops first first w
  armed :
      (ctx : FaultContext) {i : I} {w : W}
      → Reach ops first i w
      → Reach ops first (ops.arm ctx i w).1 (ops.arm ctx i w).2
  disarmed :
      {i : I} {w : W} → Reach ops first i w → Reach ops first (ops.disarm i w).1 (ops.disarm i w).2
  elsewhere : {i : I} {w : W} (w' : W) → Reach ops first i w → Reach ops first i w'

-- A predicate that both methods keep holds of every state that is reached.
pub Reach-invariant :
    {W I : Type 0} {ops : FaultInjector W I} (P : I → Type 0) {first i : I} {w : W}
    → ((ctx : FaultContext) (i : I) (w : W) → P i → P (ops.arm ctx i w).1)
    → ((i : I) (w : W) → P i → P (ops.disarm i w).1)
    → P first
    → Reach ops first i w
    → P i
Reach-invariant P on off h (begin w) = h
Reach-invariant P on off h (armed ctx {i} {w} r) = on ctx i w (Reach-invariant P on off h r)
Reach-invariant P on off h (disarmed {i} {w} r) = off i w (Reach-invariant P on off h r)
Reach-invariant P on off h (elsewhere w' r) = Reach-invariant P on off h r
