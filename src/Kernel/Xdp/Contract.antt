-- ===== src/Kernel/Xdp/Contract.antt =====
-- The XDP injectors meet what the runner relies on, and their `expect` does not fire.
use blackswan_harness.Prelude.{
  ℕ, Bool, true, false, ok, Outcome-cases, Option-cases, ◌≡◌, refl, inl, inr, ◌∙◌,
}
use blackswan_harness.Core.Fault.{FaultContext, IsFaultInjector}
use blackswan_harness.Kernel.Bpf.{word, Aya, set_map, load_and_attach}
use blackswan_harness.Kernel.Xdp.{
  XdpProgram, XdpInjector, ensure_loaded, toggle_to, arm, disarm, xdp_injector,
}

module _ {W B C : Type 0} (aya : Aya W B) (xdp : XdpProgram C) where
  toggle_to-armed :
      (on : Bool) (bpf : B) (value : ℕ) (i : XdpInjector B C) (w : W)
      → (toggle_to aya xdp on bpf value i w).0 ≡ ok tt
      → (toggle_to aya xdp on bpf value i w).1.armed ≡ on
  unfolding toggle_to
  toggle_to-armed on bpf value i w h =
      elim (Outcome-cases (set_map aya bpf i.id xdp.toggle (word value) w).0) [
        | inl (_, e) ↦ rw (e, toggle_to) refl
        | inr (inl (_, e)) ↦ cc (rw (e, toggle_to) at h)
        | inr (inr e) ↦ cc (rw (e, toggle_to) at h)
      ]

  toggle_to-id :
      (on : Bool) (bpf : B) (value : ℕ) (i : XdpInjector B C) (w : W)
      → (toggle_to aya xdp on bpf value i w).1.id ≡ i.id
  unfolding toggle_to
  toggle_to-id on bpf value i w =
      elim (Outcome-cases (set_map aya bpf i.id xdp.toggle (word value) w).0) [
        | inl (_, e) ↦ rw (e, toggle_to) refl
        | inr (inl (_, e)) ↦ rw (e, toggle_to) refl
        | inr (inr e) ↦ rw (e, toggle_to) refl
      ]

  ensure_loaded-id : (i : XdpInjector B C) (w : W) → (ensure_loaded aya xdp i w).1.id ≡ i.id
  unfolding ensure_loaded
  ensure_loaded-id i w = elim (Option-cases i.bpf) [
    | inr (_, e) ↦ rw (e, ensure_loaded) refl
    | inl e ↦ elim (Outcome-cases (load_and_attach aya i.id xdp.object xdp.program i.iface w).0) [
      | inl (_, k) ↦ rw (e, k, ensure_loaded) refl
      | inr (inl (_, k)) ↦ rw (e, k, ensure_loaded) refl
      | inr (inr k) ↦ rw (e, k, ensure_loaded) refl
    ]
  ]

  pub arm-armed :
      (ctx : FaultContext) (i : XdpInjector B C) (w : W)
      → (arm aya xdp ctx i w).0 ≡ ok tt
      → (arm aya xdp ctx i w).1.armed ≡ true
  unfolding arm
  arm-armed ctx i w h = elim (Outcome-cases (ensure_loaded aya xdp i w).0) [
    | inr (inl (_, e)) ↦ cc (rw (e, arm) at h)
    | inr (inr e) ↦ cc (rw (e, arm) at h)
    | inl (_, e) ↦ elim (Option-cases (ensure_loaded aya xdp i w).1.bpf) [
      | inl k ↦ cc (rw (e, k, arm) at h)
      | inr (bpf, k) ↦ rw (e, k, arm) (toggle_to-armed true bpf _ _ _ (rw (e, k, arm) at h))
    ]
  ]

  arm-id : (ctx : FaultContext) (i : XdpInjector B C) (w : W) → (arm aya xdp ctx i w).1.id ≡ i.id
  unfolding arm
  arm-id ctx i w = elim (Outcome-cases (ensure_loaded aya xdp i w).0) [
    | inr (inl (_, e)) ↦ rw (e, arm) (ensure_loaded-id i w)
    | inr (inr e) ↦ rw (e, arm) (ensure_loaded-id i w)
    | inl (_, e) ↦ elim (Option-cases (ensure_loaded aya xdp i w).1.bpf) [
      | inl k ↦ rw (e, k, arm) (ensure_loaded-id i w)
      | inr (bpf, k) ↦ rw (e, k, arm) (toggle_to-id true bpf _ _ _ ∙ ensure_loaded-id i w)
    ]
  ]

  pub disarm-armed :
      (i : XdpInjector B C) (w : W)
      → (disarm aya xdp i w).0 ≡ ok tt
      → (disarm aya xdp i w).1.armed ≡ false
  unfolding disarm
  disarm-armed i w h = elim (Option-cases i.bpf) [
    | inl e ↦ rw (e, disarm) refl
    | inr (bpf, e) ↦ rw (e, disarm) (toggle_to-armed false bpf 0 i w (rw (e, disarm) at h))
  ]

  disarm-id : (i : XdpInjector B C) (w : W) → (disarm aya xdp i w).1.id ≡ i.id
  unfolding disarm
  disarm-id i w = elim (Option-cases i.bpf) [
    | inl e ↦ rw (e, disarm) refl
    | inr (bpf, e) ↦ rw (e, disarm) (toggle_to-id false bpf 0 i w)
  ]

  -- Each of the XDP injectors meets what the runner relies on (IsFaultInjector), whatever the calls
  -- of `aya` return: an arm or disarm that succeeds leaves it armed or disarmed as asked, and none
  -- changes its name.
  pub xdp_injector-IsFaultInjector : IsFaultInjector (xdp_injector aya xdp)
  unfolding xdp_injector
  xdp_injector-IsFaultInjector = record {
    armed = arm-armed;
    disarmed = disarm-armed;
    id-arm = arm-id;
    id-disarm = disarm-id;
  }
