-- ===== src/Kernel/CgroupMem/Contract.antt =====
-- The cgroup injector as a fault injector.
use blackswan_harness.Prelude.{
  true, false, ok, Outcome-cases, none, Option-cases, inl, inr, ◌≡◌, ◌≢◌, refl, ◌∙◌, sum-cases,
}
use blackswan_harness.Prelude.Decimal.{to_string}
use blackswan_harness.Core.Fault.{FaultContext, IsFaultInjector}
use blackswan_harness.Kernel.Files.{Files, join}
use blackswan_harness.Kernel.CgroupMem.{
  CgroupInjector, locate_subtree, set_up, ensure_setup, write_limit, arm, disarm, cgroup_injector,
}

module _ {W : Type 0} (files : Files W) where
  -- A setup that succeeds leaves a cgroup; one that does not leaves the injector as it was.
  ensure_setup-setup :
      (i : CgroupInjector) (w : W)
      → ((ensure_setup files i w).1.id ≡ i.id)
        × ((ensure_setup files i w).0 ≡ ok tt → (ensure_setup files i w).1.setup ≢ none)
  unfolding ensure_setup
  ensure_setup-setup i w = elim (Option-cases i.setup) [
    | inr (_, e) ↦ rw (e, ensure_setup, e) (refl, λ h k. cc)
    | inl e ↦ elim (Outcome-cases (locate_subtree files i.id w)) [
      | inr (inl (_, k)) ↦ rw (e, k, ensure_setup) (refl, λ h l. cc)
      | inr (inr k) ↦ rw (e, k, ensure_setup) (refl, λ h l. cc)
      | inl (subtree, k) ↦ elim (Outcome-cases (set_up files i subtree w).0) [
        | inr (inl (_, l)) ↦ rw (e, k, l, ensure_setup) (refl, λ h m. cc)
        | inr (inr l) ↦ rw (e, k, l, ensure_setup) (refl, λ h m. cc)
        | inl (s, l) ↦ rw (e, k, l, ensure_setup) (refl, λ h m. cc)
      ]
    ]
  ]

  write_limit-armed :
      (i : CgroupInjector) (w : W)
      → ((write_limit files i w).1.id ≡ i.id)
        × ((write_limit files i w).0 ≡ ok tt → (write_limit files i w).1.armed ≡ true)
  unfolding write_limit
  write_limit-armed i w = elim (Option-cases i.setup) [
    | inl e ↦ rw (e, write_limit) (refl, λ h. cc)
    | inr (s, e) ↦
        elim (sum-cases (files.write (join s.path s.limit_file) (to_string i.limit_bytes) w).0) [
          | inl (_, k) ↦ rw (e, write_limit, k) (refl, λ h. cc)
          | inr (_, k) ↦ rw (e, write_limit, k) (refl, λ h. refl)
        ]
  ]

  pub arm-contract :
      (ctx : FaultContext) (i : CgroupInjector) (w : W)
      → ((arm files ctx i w).1.id ≡ i.id)
        × ((arm files ctx i w).0 ≡ ok tt → (arm files ctx i w).1.armed ≡ true)
  unfolding arm
  arm-contract ctx i w =
      let placed = (ensure_setup-setup i w).0 in
      elim (Outcome-cases (ensure_setup files i w).0) [
        | inl (_, e) ↦
            let (same, on) =
              write_limit-armed (ensure_setup files i w).1 (ensure_setup files i w).2 in
            rw (e, arm) (same ∙ placed, on)
        | inr (inl (_, e)) ↦ rw (e, arm) (placed, λ h. cc)
        | inr (inr e) ↦ rw (e, arm) (placed, λ h. cc)
      ]

  pub disarm-contract :
      (i : CgroupInjector) (w : W)
      → ((disarm files i w).1.id ≡ i.id)
        × ((disarm files i w).0 ≡ ok tt → (disarm files i w).1.armed ≡ false)
  unfolding disarm
  disarm-contract i w = elim (Option-cases i.setup) [
    | inl e ↦ rw (e, disarm) (refl, λ h. refl)
    | inr (s, e) ↦ elim (sum-cases (files.write (join s.path s.limit_file) s.unlimited w).0) [
      | inl (_, k) ↦ rw (e, disarm, k) (refl, λ h. cc)
      | inr (_, k) ↦ rw (e, disarm, k) (refl, λ h. refl)
    ]
  ]

  -- The cgroup injector meets what the runner relies on (IsFaultInjector), whatever the file system
  -- answers.
  pub cgroup_injector-IsFaultInjector : IsFaultInjector (cgroup_injector files)
  unfolding cgroup_injector
  cgroup_injector-IsFaultInjector = record {
    armed = λ ctx i w. (arm-contract ctx i w).1;
    disarmed = λ i w. (disarm-contract i w).1;
    id-arm = λ ctx i w. (arm-contract ctx i w).0;
    id-disarm = λ i w. (disarm-contract i w).0;
  }
