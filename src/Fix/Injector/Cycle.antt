-- ===== src/Fix/Injector/Cycle.antt =====
-- Arming and disarming a proxy again and again.
use blackswan_harness.Prelude.{
  Bool, true, false, Bool-cases, Text, ok, Outcome-cases, List, [], ◌∷◌, ◌≡◌, refl, sym, ap, ◌∙◌,
  inl, inr,
}
use blackswan_harness.Core.Fault.{FaultContext, IsFaultInjector, IsIdempotent}
use blackswan_harness.Fix.Injector.{
  Host, FixProxy, FixFaultInjector, new, start, arm, disarm, fix_fault_injector,
}

module _ {W : Type 0} (host : Host W) where
  arm-armed :
      (ctx : FaultContext) (i : FixFaultInjector) (w : W)
      → (arm host ctx i w).0 ≡ ok tt
      → (arm host ctx i w).1.armed ≡ true
  unfolding arm
  arm-armed ctx i w h = elim (Outcome-cases (start host i.proxy w).0) [
    | inl (_, e) ↦ rw (e, arm) refl
    | inr (inl (_, e)) ↦ cc (rw (e, arm) at h)
    | inr (inr e) ↦ cc (rw (e, arm) at h)
  ]

  arm-id : (ctx : FaultContext) (i : FixFaultInjector) (w : W) → (arm host ctx i w).1.id ≡ i.id
  unfolding arm
  arm-id ctx i w = elim (Outcome-cases (start host i.proxy w).0) [
    | inl (_, e) ↦ rw (e, arm) refl
    | inr (inl (_, e)) ↦ rw (e, arm) refl
    | inr (inr e) ↦ rw (e, arm) refl
  ]

  -- The injector around a FIX proxy meets what the runner relies on (IsFaultInjector), on any host:
  -- a call that succeeds leaves it armed or disarmed as asked, and no call changes its name.
  pub fix_fault_injector-IsFaultInjector : IsFaultInjector (fix_fault_injector host)
  unfolding fix_fault_injector disarm
  fix_fault_injector-IsFaultInjector = record {
    armed = arm-armed;
    disarmed = λ i w h. refl;
    id-arm = arm-id;
    id-disarm = λ i w. refl;
  }

  -- Calls in a row, `true` for an arm and `false` for a disarm. A call that fails does not end them.
  pub cycle : FaultContext → List Bool → FixFaultInjector → W → FixFaultInjector × W
  cycle ctx [] i w = (i, w)
  cycle ctx (true ∷ calls) i w = let (_, i', w') = arm host ctx i w in cycle ctx calls i' w'
  cycle ctx (false ∷ calls) i w = let (_, i', w') = disarm host i w in cycle ctx calls i' w'

  start-enabled : (p : FixProxy) (w : W) → (start host p w).1.enabled ≡ p.enabled
  unfolding start
  start-enabled p w = elim (Bool-cases p.running) [
    | inl e ↦ rw (e, start) refl
    | inr e ↦ elim (Outcome-cases (host.bind p.listen_addr w).0) [
      | inl (_, k) ↦ rw (e, k, start) refl
      | inr (inl (_, k)) ↦ rw (e, k, start) refl
      | inr (inr k) ↦ rw (e, k, start) refl
    ]
  ]

  arm-enabled :
      (ctx : FaultContext) (i : FixFaultInjector) (w : W)
      → i.proxy.enabled ≡ i.armed
      → (arm host ctx i w).1.proxy.enabled ≡ (arm host ctx i w).1.armed
  unfolding arm
  arm-enabled ctx i w h = elim (Outcome-cases (start host i.proxy w).0) [
    | inl (_, e) ↦ rw (e, arm) refl
    | inr (inl (_, e)) ↦ rw (e, arm, start-enabled i.proxy w) h
    | inr (inr e) ↦ rw (e, arm, start-enabled i.proxy w) h
  ]

  cycle-enabled :
      (ctx : FaultContext) (calls : List Bool) (i : FixFaultInjector) (w : W)
      → i.proxy.enabled ≡ i.armed
      → (cycle ctx calls i w).0.proxy.enabled ≡ (cycle ctx calls i w).0.armed
  unfolding cycle disarm
  cycle-enabled ctx [] i w h = h
  cycle-enabled ctx (true ∷ calls) i w h =
      let (_, i', w') = arm host ctx i w in cycle-enabled ctx calls i' w' (arm-enabled ctx i w h)
  cycle-enabled ctx (false ∷ calls) i w h =
      let (_, i', w') = disarm host i w in cycle-enabled ctx calls i' w' refl

  -- However often a new injector is armed and disarmed, and whichever of these calls fail, the flag
  -- that its proxy's threads read is set exactly when the injector reports that it is armed.
  pub enabled-armed :
      (ctx : FaultContext) (calls : List Bool) (id listen_addr upstream_addr : Text) (w : W)
      → let i = (cycle ctx calls (new id listen_addr upstream_addr) w).0 in
        i.proxy.enabled ≡ i.armed
  unfolding new
  enabled-armed ctx calls id listen_addr upstream_addr w =
      cycle-enabled ctx calls (new id listen_addr upstream_addr) w refl

  start-running : (p : FixProxy) (w : W) → p.running ≡ true → start host p w ≡ (ok tt, p, w)
  unfolding start
  start-running p w h = rw (start, h) refl

  arm-attached :
      (ctx : FaultContext) (i : FixFaultInjector) (w : W)
      → i.proxy.running ≡ true
      → ((arm host ctx i w).2 ≡ w) × ((arm host ctx i w).1.proxy.running ≡ true)
  unfolding arm
  arm-attached ctx i w h = let e = start-running i.proxy w h in rw (e, arm, e) (refl, h)

  -- Once the proxy runs, no arm or disarm reaches the host: it binds nothing and starts no thread
  -- again, and it goes on running.
  pub cycle-attached :
      (ctx : FaultContext) (calls : List Bool) (i : FixFaultInjector) (w : W)
      → i.proxy.running ≡ true
      → ((cycle ctx calls i w).1 ≡ w) × ((cycle ctx calls i w).0.proxy.running ≡ true)
  unfolding cycle disarm
  cycle-attached ctx [] i w h = (refl, h)
  cycle-attached ctx (true ∷ calls) i w h =
      let (_, i', w') = arm host ctx i w in
      let (same, runs) = arm-attached ctx i w h in
      let (later, on) = cycle-attached ctx calls i' w' runs in (later ∙ same, on)
  cycle-attached ctx (false ∷ calls) i w h =
      let (_, i', w') = disarm host i w in cycle-attached ctx calls i' w' h

  start_ok-running :
      (p : FixProxy) (w : W) → (start host p w).0 ≡ ok tt → (start host p w).1.running ≡ true
  unfolding start
  start_ok-running p w h = elim (Bool-cases p.running) [
    | inl e ↦ rw (e, start) refl
    | inr e ↦ elim (Outcome-cases (host.bind p.listen_addr w).0) [
      | inl (_, k) ↦ rw (e, k, start) refl
      | inr (inl (_, k)) ↦ cc (rw (e, k, start) at h)
      | inr (inr k) ↦ cc (rw (e, k, start) at h)
    ]
  ]

  arm-on :
      (ctx : FaultContext) (i : FixFaultInjector) (w : W)
      → (arm host ctx i w).0 ≡ ok tt
      → let i' = (arm host ctx i w).1 in
        (i'.proxy.running ≡ true) × (i'.proxy.enabled ≡ true) × (i'.armed ≡ true)
  unfolding arm
  arm-on ctx i w h = elim (Outcome-cases (start host i.proxy w).0) [
    | inl (_, e) ↦ rw (e, arm) (start_ok-running i.proxy w e, refl, refl)
    | inr (inl (_, e)) ↦ cc (rw (e, arm) at h)
    | inr (inr e) ↦ cc (rw (e, arm) at h)
  ]

  arm-same :
      (ctx : FaultContext) (i : FixFaultInjector) (w : W)
      → i.proxy.running ≡ true
      → i.proxy.enabled ≡ true
      → i.armed ≡ true
      → (arm host ctx i w).1 ≡ i
  unfolding arm
  arm-same ctx i w runs enabled on =
      let e = start-running i.proxy w runs in
      rw (e, arm, e)
        (ap (λ (a : Bool). record i { proxy = record i.proxy { enabled = a }; armed = true })
            (sym enabled)
          ∙ ap (λ (a : Bool). record i { armed = a }) (sym on))

  pub fix_fault_injector-IsIdempotent : IsIdempotent (fix_fault_injector host)
  unfolding fix_fault_injector disarm
  fix_fault_injector-IsIdempotent = record {
    rearmed = λ ctx ctx' i w w' h.
        let (runs, enabled, on) = arm-on ctx i w h in
        arm-same ctx' (arm host ctx i w).1 w' runs enabled on;
    redisarmed = λ i w w' h. refl;
  }
