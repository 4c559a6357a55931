-- ===== src/Kernel/CgroupMem/Again.antt =====
-- The cgroup injector armed or disarmed twice.
use blackswan_harness.Prelude.{
  Bool, true, false, ok, Outcome-cases, some, Option-cases, sum-cases, ◌≡◌, refl, sym, ap, ◌∙◌, inl,
  inr,
}
use blackswan_harness.Prelude.Decimal.{to_string}
use blackswan_harness.Core.Fault.{FaultContext, IsIdempotent}
use blackswan_harness.Kernel.Files.{Files, join}
use blackswan_harness.Kernel.CgroupMem.{
  CgroupInjector, Setup, ensure_setup, write_limit, arm, disarm, cgroup_injector,
}
use blackswan_harness.Kernel.CgroupMem.Contract.{arm-contract, disarm-contract}
use blackswan_harness.Kernel.CgroupMem.Made.{ensure_setup-some}

module _ {W : Type 0} (files : Files W) where
  write_limit-setup : (i : CgroupInjector) (w : W) → (write_limit files i w).1.setup ≡ i.setup
  unfolding write_limit
  write_limit-setup i w = elim (Option-cases i.setup) [
    | inl e ↦ rw (e, write_limit, e) refl
    | inr (s, e) ↦
        elim (sum-cases (files.write (join s.path s.limit_file) (to_string i.limit_bytes) w).0) [
          | inl (_, k) ↦ rw (e, write_limit, k, e) refl
          | inr (_, k) ↦ rw (e, write_limit, k, e) refl
        ]
  ]

  write_limit-same :
      (i j : CgroupInjector) (w : W) → i ≡ j → i.armed ≡ true → (write_limit files i w).1 ≡ j
  unfolding write_limit
  write_limit-same i j w same on =
      let again : record i { armed = true } ≡ j =
        ap (λ (a : Bool). record i { armed = a }) (sym on) ∙ same in
      elim (Option-cases i.setup) [
        | inl e ↦ rw (e, write_limit) same
        | inr (s, e) ↦
            elim (sum-cases
              (files.write (join s.path s.limit_file) (to_string i.limit_bytes) w).0) [
                | inl (_, k) ↦ rw (e, write_limit, k) same
                | inr (_, k) ↦ rw (e, write_limit, k) again
              ]
      ]

  arm-setup :
      (ctx : FaultContext) (i : CgroupInjector) (w : W)
      → (arm files ctx i w).0 ≡ ok tt
      → (s : Setup) × ((arm files ctx i w).1.setup ≡ some s)
  unfolding arm
  arm-setup ctx i w h = elim (Outcome-cases (ensure_setup files i w).0) [
    | inr (inl (_, e)) ↦ cc (rw (e, arm) at h)
    | inr (inr e) ↦ cc (rw (e, arm) at h)
    | inl (_, e) ↦
        let (s, placed) = ensure_setup-some files i w e in
        (s, rw (e, arm, write_limit-setup) placed)
  ]

  ensure_setup-same :
      (i j : CgroupInjector) (w : W) (s : Setup)
      → i ≡ j
      → i.setup ≡ some s
      → ensure_setup files i w ≡ (ok tt, j, w)
  unfolding ensure_setup
  ensure_setup-same i j w s same e =
      rw (e, ensure_setup) (ap (λ (k : CgroupInjector). (ok tt, k, w)) same)

  arm-same :
      (ctx : FaultContext) (i : CgroupInjector) (w : W) (s : Setup)
      → i.setup ≡ some s
      → i.armed ≡ true
      → (arm files ctx i w).1 ≡ i
  unfolding arm
  arm-same ctx i w s e on =
      let placed = ensure_setup-same i i w s refl e in
      rw (placed, arm, placed) (write_limit-same i i w refl on)

  disarm-same : (i j : CgroupInjector) (w : W) → i ≡ j → i.armed ≡ false → (disarm files i w).1 ≡ j
  unfolding disarm
  disarm-same i j w same off =
      let again : record i { armed = false } ≡ j =
        ap (λ (a : Bool). record i { armed = a }) (sym off) ∙ same in
      elim (Option-cases i.setup) [
        | inl e ↦ rw (e, disarm) again
        | inr (s, e) ↦ elim (sum-cases (files.write (join s.path s.limit_file) s.unlimited w).0) [
          | inl (_, k) ↦ rw (e, disarm, k) same
          | inr (_, k) ↦ rw (e, disarm, k) again
        ]
      ]

  pub cgroup_injector-IsIdempotent : IsIdempotent (cgroup_injector files)
  unfolding cgroup_injector
  cgroup_injector-IsIdempotent = record {
    rearmed = λ ctx ctx' i w w' h.
        let (s, e) = arm-setup ctx i w h in
        arm-same ctx' (arm files ctx i w).1 w' s e ((arm-contract files ctx i w).1 h);
    redisarmed = λ i w w' h.
        disarm-same (disarm files i w).1 (disarm files i w).1 w' refl
          ((disarm-contract files i w).1 h);
  }
