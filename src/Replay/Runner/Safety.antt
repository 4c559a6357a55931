-- ===== src/Replay/Runner/Safety.antt =====
-- The injectors during a run: none is missing, none is armed twice, and what is armed at the end is
-- what the schedule says.
use blackswan_harness.Prelude.{
  ℕ, zero, suc, Bool, true, false, Bool-cases, if◌then◌else◌, Text, bytes_eq, Outcome, ok, err,
  panic, Outcome-cases, Option, none, some, Option-cases, List, [], ◌∷◌, ◌++◌, ◌≡◌, refl, sym, ◌∙◌,
  ap, subst, inl, inr, arith,
}
use blackswan_harness.Core.Error.{HarnessError}
use blackswan_harness.Core.Scenario.{ScenarioStep, StepAction, arm, disarm}
use blackswan_harness.Core.Fault.{FaultContext, FaultInjector, IsFaultInjector}
use blackswan_harness.Replay.Schedule.{steps}
use blackswan_harness.Replay.Schedule.Spec.{actions_on}
use blackswan_harness.Replay.Scheduler
use blackswan_harness.Replay.Scheduler.{Scheduler, advance, is_finished, now_ns}
use blackswan_harness.Replay.Scheduler.Due.{pending, pending-advance, is_finished-pending}
use blackswan_harness.Replay.Trace.{Trace}
use blackswan_harness.Replay.Runner.{
  Runner, Progress, act, settle, fire_step, fire, nap, round, run_loop, start, run_inner, is_armed,
}
use blackswan_harness.Replay.Runner.Table.{Registry, lookup, replace, lookup-replace}

abbrev pub is_arm : StepAction → Bool
is_arm arm = true
is_arm disarm = false

pub is_armed-nil : {W I : Type 0} (ops : FaultInjector W I) (f : Text) → is_armed ops f [] ≡ none
unfolding is_armed lookup
is_armed-nil ops f = refl

pub is_armed-cons :
    {W I : Type 0} (ops : FaultInjector W I) (f g : Text) (i : I) (r : Registry I)
    → is_armed ops g ((f, i) ∷ r)
      ≡ (if bytes_eq f g then some (ops.is_armed i) else is_armed ops g r)
unfolding is_armed lookup
is_armed-cons ops f g i r = elim (Bool-cases (bytes_eq f g)) [
  | inl same ↦ rw (is_armed, lookup, same)
  | inr other ↦ rw (is_armed, lookup, other)
]

-- Whether a fault is armed after the actions on it; `none` is a fault with no injector.
abbrev pub flag_after : Option Bool → List StepAction → Option Bool
flag_after b [] = b
flag_after b (a ∷ acts) = flag_after (some (is_arm a)) acts

module _ {W I : Type 0} (ops : FaultInjector W I) (ctx : FaultContext) where
  pub injectors-settle :
      (now : ℕ) (step : ScenarioStep) (r : Outcome HarnessError (Unit {0}) × I × W)
      (p : Progress W I)
      → (settle ops ctx now step r p).1.injectors ≡ replace step.fault_id r.1 p.injectors
  unfolding settle
  injectors-settle now step (ok u, i, w) p = refl
  injectors-settle now step (err e, i, w) p = refl
  injectors-settle now step (panic, i, w) p = refl

  pub result-settle :
      (now : ℕ) (step : ScenarioStep) (r : Outcome HarnessError (Unit {0}) × I × W)
      (p : Progress W I)
      → (settle ops ctx now step r p).0 ≡ r.0
  unfolding settle
  result-settle now step (ok u, i, w) p = refl
  result-settle now step (err e, i, w) p = refl
  result-settle now step (panic, i, w) p = refl

  -- A step that succeeded had an injector, which acted and was written back.
  fire_step-ok :
      (now : ℕ) (step : ScenarioStep) (p : Progress W I)
      → (fire_step ops ctx now step p).0 ≡ ok tt
      → (i : I) × (lookup step.fault_id p.injectors ≡ some i)
        × ((act ops ctx step.action i p.world).0 ≡ ok tt)
        × ((fire_step ops ctx now step p).1.injectors
            ≡ replace step.fault_id (act ops ctx step.action i p.world).1 p.injectors)
  unfolding fire_step
  fire_step-ok now step p h = elim (Option-cases (lookup step.fault_id p.injectors)) [
    | inl e ↦ cc (rw (e, fire_step) at h)
    | inr (i, e) ↦
        let r = act ops ctx step.action i p.world in
        (
          i,
          e,
          sym (result-settle now step r p) ∙ (rw (e, fire_step) at h),
          rw (e, fire_step) (injectors-settle now step r p),
        )
  ]

  module _ (lawful : IsFaultInjector ops) where
    is_armed-act :
        (a : StepAction) (i : I) (w : W)
        → (act ops ctx a i w).0 ≡ ok tt
        → ops.is_armed (act ops ctx a i w).1 ≡ is_arm a
    unfolding act
    is_armed-act arm i w h = lawful.armed ctx i w h
    is_armed-act disarm i w h = lawful.disarmed i w h

    is_armed-replace :
        (f g : Text) (i j : I) (r : Registry I)
        → lookup f r ≡ some j
        → is_armed ops g (replace f i r)
          ≡ (if bytes_eq f g then some (ops.is_armed i) else is_armed ops g r)
    unfolding is_armed
    is_armed-replace f g i j r e = elim (Bool-cases (bytes_eq f g)) [
      | inl same ↦ rw (is_armed, lookup-replace f g i j r e, same)
      | inr other ↦ rw (is_armed, lookup-replace f g i j r e, other)
    ]

    pub is_armed-fire_step :
        (now : ℕ) (step : ScenarioStep) (p : Progress W I) (f : Text)
        → (fire_step ops ctx now step p).0 ≡ ok tt
        → is_armed ops f (fire_step ops ctx now step p).1.injectors ≡ (
            if bytes_eq step.fault_id f
            then some (is_arm step.action)
            else is_armed ops f p.injectors)
    unfolding is_armed
    is_armed-fire_step now step p f h =
        let (i, e, done, written) = fire_step-ok now step p h in
        let i' = (act ops ctx step.action i p.world).1 in
        rw (
          written,
          is_armed-replace step.fault_id f (act ops ctx step.action i p.world).1 i p.injectors e,
          is_armed-act step.action i p.world done,
        )

    pub flag-fire :
        (now : ℕ) (ss : List ScenarioStep) (p : Progress W I) (f : Text)
        → (fire ops ctx now ss p).0 ≡ ok tt
        → is_armed ops f (fire ops ctx now ss p).1.injectors
          ≡ flag_after (is_armed ops f p.injectors) (actions_on f ss)
    unfolding fire actions_on
    flag-fire now [] p f h = refl
    flag-fire now (s ∷ ss) p f h = elim (Outcome-cases (fire_step ops ctx now s p).0) [
      | inl (u, e) ↦
          let rest = flag-fire now ss (fire_step ops ctx now s p).1 f (rw (e, fire) at h) in
          let first = is_armed-fire_step now s p f e in
          elim (Bool-cases (bytes_eq s.fault_id f)) [
            | inl same ↦
                rw (e, fire, same)
                  (rest ∙ ap (λ b. flag_after b (actions_on f ss)) (rw same at first))
            | inr other ↦
                rw (e, fire, other)
                  (rest ∙ ap (λ b. flag_after b (actions_on f ss)) (rw other at first))
          ]
      | inr (inl (x, e)) ↦ cc (rw (e, fire) at h)
      | inr (inr e) ↦ cc (rw (e, fire) at h)
    ]

pub flag_after-append :
    (b : Option Bool) (xs ys : List StepAction)
    → flag_after b (xs ++ ys) ≡ flag_after (flag_after b xs) ys
flag_after-append b [] ys = refl
flag_after-append b (x ∷ xs) ys = flag_after-append (some (is_arm x)) xs ys

pub actions_on-append :
    (f : Text) (ss rs : List ScenarioStep)
    → actions_on f (ss ++ rs) ≡ actions_on f ss ++ actions_on f rs
unfolding actions_on
actions_on-append f [] rs = refl
actions_on-append f (s ∷ ss) rs = ground (arith, actions_on-append f ss rs)

module _ {W I : Type 0} (ops : FaultInjector W I) (sleep : ℕ → W → W) (ctx : FaultContext)
    (tick : ℕ) (realtime : Bool) where
  pub injectors-nap :
      (p : Progress W I) → (nap ops sleep ctx tick realtime p).injectors ≡ p.injectors
  unfolding nap
  injectors-nap p = ground arith

  module _ (lawful : IsFaultInjector ops) where
    flag-run_loop :
        (fuel : ℕ) (s : Scheduler) (p p' : Progress W I) (t : Trace) (f : Text)
        → run_loop ops sleep ctx tick realtime fuel s p ≡ some (ok t, p')
        → is_armed ops f p'.injectors
          ≡ flag_after (is_armed ops f p.injectors) (actions_on f (pending s))
    unfolding run_loop actions_on
    flag-run_loop zero s p p' t f h = cc
    flag-run_loop (suc fuel) s p p' t f h = elim (Bool-cases (is_finished s)) [
      | inl fin ↦ let same : p ≡ p' = ground (arith, fin) in rw (is_finished-pending s fin, ← same)
      | inr more ↦ elim (Outcome-cases (round ops sleep ctx tick realtime s p).0) [
        | inl (u, e) ↦
            let p₁ = (round ops sleep ctx tick realtime s p).1 in
            let rest =
              flag-run_loop fuel (advance tick s).1 p₁ p' t f (rw (more, e, run_loop) at h) in
            let first : is_armed ops f p₁.injectors
                ≡ flag_after (is_armed ops f p.injectors) (actions_on f (advance tick s).0) =
              subst
                (λ r.
                  is_armed ops f p₁.injectors
                  ≡ flag_after (is_armed ops f r) (actions_on f (advance tick s).0))
                (injectors-nap p)
                (flag-fire ops ctx lawful _ _ (nap ops sleep ctx tick realtime p) f e) in
            rw (← pending-advance tick s, actions_on-append, flag_after-append, ← first) rest
        | inr (inl (x, e)) ↦ cc (rw (more, e, run_loop) at h)
        | inr (inr e) ↦ cc (rw (more, e, run_loop) at h)
      ]
    ]

-- After a run that returns a trace, a fault that the schedule names is armed exactly if the last
-- action on it in the schedule is an arm, and an injector that the schedule does not name is as it
-- was. The injectors are assumed to report themselves as a call that succeeds asks.
pub run_inner-armed :
    {W I : Type 0} (ops : FaultInjector W I) (sleep : ℕ → W → W) (fuel tick : ℕ) (realtime : Bool)
    (r : Runner I) (w : W) (t : Trace) (p : Progress W I) (f : Text)
    → IsFaultInjector ops
    → run_inner ops sleep fuel tick realtime r w ≡ some (ok t, p)
    → is_armed ops f p.injectors
      ≡ flag_after (is_armed ops f r.injectors) (actions_on f (steps r.schedule))
unfolding run_inner start Scheduler.new
run_inner-armed ops sleep fuel tick realtime r w t p f lawful h =
    flag-run_loop ops sleep r.ctx tick realtime lawful fuel _ _ p t f h
