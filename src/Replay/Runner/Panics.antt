-- ===== src/Replay/Runner/Panics.antt =====
-- The `expect` of the loop does not fire: `Runner::new` has checked every fault of the schedule.
use blackswan_harness.Prelude.{
  ℕ, zero, suc, Bool, Bool-cases, Text, bytes_eq, Outcome, ok, err, panic, Outcome-cases, some,
  Option-cases, List, [], ◌∷◌, ◌++◌, ◌≡◌, ◌≢◌, refl, subst, inl, inr, All,
}
use blackswan_harness.Core.Error.{HarnessError}
use blackswan_harness.Core.Scenario.{ScenarioStep, StepAction, arm, disarm}
use blackswan_harness.Core.Fault.{FaultContext, FaultInjector}
use blackswan_harness.Replay.Schedule.{ValidatedSchedule, steps}
use blackswan_harness.Replay.Scheduler
use blackswan_harness.Replay.Scheduler.{Scheduler, advance, is_finished, now_ns}
use blackswan_harness.Replay.Scheduler.Due.{pending, pending-advance}
use blackswan_harness.Replay.Trace.{Trace}
use blackswan_harness.Replay.Runner.{
  Runner, Progress, new, check_registered, act, settle, fire_step, fire, nap, round, run_loop,
  start, run_inner,
}
use blackswan_harness.Replay.Runner.Table.{Registry, lookup, replace, lookup-replace}
use blackswan_harness.Replay.Runner.Safety.{injectors-nap}
use blackswan_harness.Replay.Runner.Made.{new-ok}

-- No method of an injector panics.
pub record NeverPanics {W I : Type 0} (ops : FaultInjector W I) : Type 0 where
  pub arm : (ctx : FaultContext) (i : I) (w : W) → (ops.arm ctx i w).0 ≢ panic
  pub disarm : (i : I) (w : W) → (ops.disarm i w).0 ≢ panic

abbrev Registered : {I : Type 0} → Registry I → List ScenarioStep → Type 0
Registered {I} injectors =
    All (λ (s : ScenarioStep). (i : I) × (lookup s.fault_id injectors ≡ some i))

Registered-suffix :
    {I : Type 0} (r : Registry I) (ss rs : List ScenarioStep)
    → Registered r (ss ++ rs)
    → Registered r rs
Registered-suffix r [] rs h = h
Registered-suffix r (s ∷ ss) rs h = Registered-suffix r ss rs h.1

Registered-check :
    {I : Type 0} (r : Registry I) (ss : List ScenarioStep)
    → check_registered r ss ≡ ok tt
    → Registered r ss
unfolding check_registered
Registered-check r [] h = tt
Registered-check r (s ∷ ss) h = elim (Option-cases (lookup s.fault_id r)) [
  | inl e ↦ cc (rw (e, check_registered) at h)
  | inr (i, e) ↦ ((i, e), Registered-check r ss (rw (e, check_registered) at h))
]

Registered-replace :
    {I : Type 0} (f : Text) (i j : I) (r : Registry I) (ss : List ScenarioStep)
    → lookup f r ≡ some j
    → Registered r ss
    → Registered (replace f i r) ss
Registered-replace f i j r [] found h = tt
Registered-replace {I} f i j r (s ∷ ss) found h = (here, Registered-replace f i j r ss found h.1)
  where
    here : (k : I) × (lookup s.fault_id (replace f i r) ≡ some k)
    here = elim (Bool-cases (bytes_eq f s.fault_id)) [
      | inl same ↦ (i, rw (lookup-replace f s.fault_id i j r found, same))
      | inr other ↦ (h.0.0, rw (lookup-replace f s.fault_id i j r found, other, h.0.1))
    ]

module _ {W I : Type 0} (ops : FaultInjector W I) (ctx : FaultContext)
    (calm : NeverPanics ops) where
  act-ne-panic : (a : StepAction) (i : I) (w : W) → (act ops ctx a i w).0 ≢ panic
  unfolding act
  act-ne-panic arm i w = calm.arm ctx i w
  act-ne-panic disarm i w = calm.disarm i w

  settle-ne-panic :
      (now : ℕ) (s : ScenarioStep) (r : Outcome HarnessError (Unit {0}) × I × W) (p : Progress W I)
      → r.0 ≢ panic
      → ((settle ops ctx now s r p).0 ≢ panic)
        × ((settle ops ctx now s r p).1.injectors ≡ replace s.fault_id r.1 p.injectors)
  unfolding settle
  settle-ne-panic now s (ok u, i, w) p h = (λ e. cc, refl)
  settle-ne-panic now s (err x, i, w) p h = (λ e. cc, refl)
  settle-ne-panic now s (panic, i, w) p h = absurd (h refl)

  fire_step-ne-panic :
      (now : ℕ) (s : ScenarioStep) (rs : List ScenarioStep) (p : Progress W I)
      → Registered p.injectors (s ∷ rs)
      → ((fire_step ops ctx now s p).0 ≢ panic)
        × Registered (fire_step ops ctx now s p).1.injectors rs
  unfolding fire_step
  fire_step-ne-panic now s rs p ((i, found), h) =
      let r = act ops ctx s.action i p.world in
      let (calmly, written) = settle-ne-panic now s r p (act-ne-panic s.action i p.world) in
      rw (found, fire_step)
        (calmly, rw written (Registered-replace s.fault_id r.1 i p.injectors rs found h))

  fire-ne-panic :
      (now : ℕ) (ss rs : List ScenarioStep) (p : Progress W I)
      → Registered p.injectors (ss ++ rs)
      → ((fire ops ctx now ss p).0 ≢ panic) × Registered (fire ops ctx now ss p).1.injectors rs
  unfolding fire
  fire-ne-panic now [] rs p h = (λ e. cc, h)
  fire-ne-panic now (s ∷ ss) rs p h =
      let (calmly, h') = fire_step-ne-panic now s (ss ++ rs) p h in
      elim (Outcome-cases (fire_step ops ctx now s p).0) [
        | inl (u, e) ↦ rw (e, fire) (fire-ne-panic now ss rs (fire_step ops ctx now s p).1 h')
        | inr (inl (x, e)) ↦ rw (e, fire) (λ z. cc, Registered-suffix _ ss rs h')
        | inr (inr e) ↦ absurd (calmly e)
      ]

module _ {W I : Type 0} (ops : FaultInjector W I) (sleep : ℕ → W → W) (ctx : FaultContext)
    (tick : ℕ) (realtime : Bool) (calm : NeverPanics ops) where
  run_loop-ne-panic :
      (fuel : ℕ) (s : Scheduler) (p p' : Progress W I) (res : Outcome HarnessError Trace)
      → Registered p.injectors (pending s)
      → run_loop ops sleep ctx tick realtime fuel s p ≡ some (res, p')
      → res ≢ panic
  unfolding run_loop
  run_loop-ne-panic zero s p p' res h e bad = cc
  run_loop-ne-panic (suc fuel) s p p' res h e bad = elim (Bool-cases (is_finished s)) [
    | inl fin ↦ cc (rw (fin, run_loop) at e)
    | inr more ↦
        let (calmly, h') =
          fire-ne-panic ops ctx calm (now_ns (advance tick s).1) (advance tick s).0
            (pending (advance tick s).1) (nap ops sleep ctx tick realtime p)
            (rw (pending-advance, injectors-nap) h) in
        elim (Outcome-cases (round ops sleep ctx tick realtime s p).0) [
          | inl (u, done) ↦
              run_loop-ne-panic fuel (advance tick s).1 (round ops sleep ctx tick realtime s p).1 p'
                res h' (rw (more, done, run_loop) at e) bad
          | inr (inl (x, failed)) ↦ cc (rw (more, failed, run_loop) at e)
          | inr (inr panicked) ↦ absurd (calmly panicked)
        ]
  ]

-- A runner that `Runner::new` has made never panics, if its injectors never do: whatever a run
-- returns, it is a trace or an error.
pub run_inner-ne-panic :
    {W I : Type 0} (ops : FaultInjector W I) (sleep : ℕ → W → W) (fuel tick : ℕ) (realtime : Bool)
    (v : ValidatedSchedule) (injectors : Registry I) (ctx : FaultContext) (r : Runner I) (w : W)
    (res : Outcome HarnessError Trace) (p : Progress W I)
    → NeverPanics ops
    → new v injectors ctx ≡ ok r
    → run_inner ops sleep fuel tick realtime r w ≡ some (res, p)
    → res ≢ panic
unfolding run_inner start Scheduler.new
run_inner-ne-panic ops sleep fuel tick realtime v injectors ctx r w res p calm h e =
    let (registered, made) = new-ok v injectors ctx r h in
    run_loop-ne-panic ops sleep r.ctx tick realtime calm fuel _ _ p res
      (subst (λ (r : Runner _). Registered r.injectors (steps r.schedule)) made
        (Registered-check injectors (steps v) registered))
      e
