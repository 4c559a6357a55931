-- ===== src/Replay/Runner/Left.antt =====
-- What a teardown leaves behind, injector by injector, whatever it reports.
use blackswan_harness.Prelude.{
  false, Bool-cases, Text, ok, err, panic, Outcome-cases, Option, none, [], ◌∷◌, ◌≡◌, ◌≢◌, ◌⊎◌,
  refl, inl, inr, All,
}
use blackswan_harness.Core.Error.{HarnessError}
use blackswan_harness.Core.Fault.{FaultInjector, IsFaultInjector}
use blackswan_harness.Replay.Runner.{keep_first, teardown_loop, report, teardown}
use blackswan_harness.Replay.Runner.Table.{Registry}

-- An injector is not armed, or it is as a disarm that failed has left it.
abbrev pub Released : {W I : Type 0} → FaultInjector W I → I → Type 0
Released {W} {I} ops left =
    (ops.is_armed left ≡ false)
    ⊎ ((i : I) × (w : W) × (x : HarnessError) × ((ops.disarm i w).0 ≡ err x)
        × ((ops.disarm i w).1 ≡ left))

module _ {W I : Type 0} (ops : FaultInjector W I) (lawful : IsFaultInjector ops) where
  teardown_loop-Released :
      (r : Registry I) (w : W) (first : Option HarnessError)
      → (teardown_loop ops r w first).0 ≢ panic
      → All (λ (e : Text × I). Released ops e.1) (teardown_loop ops r w first).1
  unfolding teardown_loop
  teardown_loop-Released [] w first h = tt
  teardown_loop-Released ((f, i) ∷ rest) w first h = elim (Bool-cases (ops.is_armed i)) [
    | inr off ↦
        let left = teardown_loop-Released rest w first (rw (off, teardown_loop) at h) in
        rw (off, teardown_loop) (inl off, left)
    | inl on ↦ elim (Outcome-cases (ops.disarm i w).0) [
      | inl (u, e) ↦
          let left =
            teardown_loop-Released rest (ops.disarm i w).2 (keep_first ops first (ok u))
              (rw (on, e, teardown_loop, e) at h) in
          rw (on, e, teardown_loop, e) (inl (lawful.disarmed i w e), left)
      | inr (inl (x, e)) ↦
          let left =
            teardown_loop-Released rest (ops.disarm i w).2 (keep_first ops first (err x))
              (rw (on, e, teardown_loop, e) at h) in
          rw (on, e, teardown_loop, e) (inr (i, w, x, e, refl), left)
      | inr (inr e) ↦ absurd (h (rw (on, teardown_loop, e) refl))
    ]
  ]

  -- Where the teardown does not panic, every injector it leaves is released.
  pub teardown-Released :
      (r : Registry I) (w : W)
      → (teardown ops r w).0 ≢ panic
      → All (λ (e : Text × I). Released ops e.1) (teardown ops r w).1
  unfolding teardown report
  teardown-Released r w h = teardown_loop-Released r w none (λ e. h (rw (e, report) refl))
