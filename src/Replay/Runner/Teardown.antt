-- ===== src/Replay/Runner/Teardown.antt =====
-- `teardown`: what it leaves armed, and the error that it reports.
use blackswan_harness.Prelude.{
  true, false, Bool-cases, Text, Outcome, ok, err, panic, Outcome-cases, Option, none, some, [],
  ◌∷◌, ◌≡◌, ◌≢◌, refl, inl, inr, All,
}
use blackswan_harness.Core.Error.{HarnessError}
use blackswan_harness.Core.Fault.{FaultInjector, IsFaultInjector}
use blackswan_harness.Replay.Runner.{keep_first, teardown_loop, report, teardown}
use blackswan_harness.Replay.Runner.Strict.{strict}
use blackswan_harness.Replay.Runner.Table.{Registry}

module _ {W I : Type 0} (ops : FaultInjector W I) (lawful : IsFaultInjector ops) where
  abbrev AllUnarmed : Registry I → Type 0
  AllUnarmed = All (λ (e : Text × I). ops.is_armed e.1 ≡ false)

  keep_first-none :
      (first : Option HarnessError) (r : Outcome HarnessError (Unit {0}))
      → r ≢ panic
      → keep_first ops first r ≡ none
      → (first ≡ none) × (r ≡ ok tt)
  unfolding keep_first
  keep_first-none (some e) r h n = cc
  keep_first-none none (ok u) h n = (refl, refl)
  keep_first-none none (err e) h n = cc
  keep_first-none none panic h n = absurd (h refl)

  teardown_loop-unarmed :
      (r : Registry I) (w : W) (first : Option HarnessError)
      → (teardown_loop ops r w first).0 ≡ ok none
      → (first ≡ none) × AllUnarmed (teardown_loop ops r w first).1
  unfolding teardown_loop
  teardown_loop-unarmed [] w first h = (cc, tt)
  teardown_loop-unarmed ((f, i) ∷ rest) w first h = elim (Bool-cases (ops.is_armed i)) [
    | inr off ↦
        let (started, left) = teardown_loop-unarmed rest w first (rw (off, teardown_loop) at h) in
        (started, rw (off, teardown_loop) (off, left))
    | inl on ↦ elim (Outcome-cases (ops.disarm i w).0) [
      | inl (u, e) ↦
          let (started, left) =
            teardown_loop-unarmed rest (ops.disarm i w).2 (keep_first ops first (ok tt))
              (rw (on, e, teardown_loop, e) at h) in
          (
            (keep_first-none first (ok tt) (λ z. cc) started).0,
            rw (on, e, teardown_loop, e) (lawful.disarmed i w e, left),
          )
      | inr (inl (x, e)) ↦
          let (started, _) =
            teardown_loop-unarmed rest (ops.disarm i w).2 (keep_first ops first (err x))
              (rw (on, e, teardown_loop, e) at h) in
          cc ((keep_first-none first (err x) (λ z. cc) started).1)
      | inr (inr e) ↦ cc (rw (on, e, teardown_loop) at h)
    ]
  ]

-- When `teardown` reports success, no injector of the registry is left armed.
pub teardown-unarmed :
    {W I : Type 0} (ops : FaultInjector W I) (r : Registry I) (w : W)
    → IsFaultInjector ops
    → (teardown ops r w).0 ≡ ok tt
    → All (λ (e : Text × I). ops.is_armed e.1 ≡ false) (teardown ops r w).1
unfolding teardown report
teardown-unarmed ops r w lawful h = elim (Outcome-cases (teardown_loop ops r w none).0) [
  | inl (none, e) ↦ (teardown_loop-unarmed ops lawful r w none e).1
  | inl (some x, e) ↦ cc (rw (e, report) at h)
  | inr (inl (x, e)) ↦ cc (rw (e, report) at h)
  | inr (inr e) ↦ cc (rw (e, report) at h)
]

module _ {W I : Type 0} (ops : FaultInjector W I) where
  keep_first-strict :
      (first : Option HarnessError) (r : Outcome HarnessError (Unit {0}))
      → keep_first (strict ops) first r ≡ keep_first ops first r
  unfolding keep_first
  keep_first-strict (some e) r = refl
  keep_first-strict none (ok u) = refl
  keep_first-strict none (err e) = refl
  keep_first-strict none panic = refl

  report-strict :
      (r : Outcome HarnessError (Option HarnessError)) → report (strict ops) r ≡ report ops r
  unfolding report
  report-strict (ok none) = refl
  report-strict (ok (some e)) = refl
  report-strict (err e) = refl
  report-strict panic = refl

  disarm-strict : (i : I) (w : W) → ops.is_armed i ≡ true → (strict ops).disarm i w ≡ ops.disarm i w
  unfolding strict
  disarm-strict i w on = rw (on, strict)

  teardown_loop-strict :
      (r : Registry I) (w : W) (first : Option HarnessError)
      → teardown_loop (strict ops) r w first ≡ teardown_loop ops r w first
  unfolding teardown_loop strict
  teardown_loop-strict [] w first = refl
  teardown_loop-strict ((f, i) ∷ rest) w first = elim (Bool-cases (ops.is_armed i)) [
    | inr off ↦ rw (off, teardown_loop, teardown_loop-strict rest w first)
    | inl on ↦
        let same = disarm-strict i w on in
        let kept = keep_first-strict first in
        let rest' =
          λ (first : Option HarnessError). teardown_loop-strict rest (ops.disarm i w).2 first in
        elim (Outcome-cases (ops.disarm i w).0) [
          | inl (u, e) ↦ rw (
            on,
            teardown_loop,
            same,
            e,
            same,
            e,
            kept (ok u),
            rest' (keep_first ops first (ok u)),
          )
          | inr (inl (x, e)) ↦ rw (
            on,
            teardown_loop,
            same,
            e,
            same,
            e,
            kept (err x),
            rest' (keep_first ops first (err x)),
          )
          | inr (inr e) ↦ rw (on, teardown_loop, same, e, same)
        ]
  ]

  pub teardown-strict : (r : Registry I) (w : W) → teardown (strict ops) r w ≡ teardown ops r w
  unfolding teardown
  teardown-strict r w =
      rw (teardown_loop-strict r w none, report-strict (teardown_loop ops r w none).0)
