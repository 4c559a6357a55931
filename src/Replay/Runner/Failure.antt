-- ===== src/Replay/Runner/Failure.antt =====
-- What a run that returns an error has left behind: it stopped at one step of the schedule.
use blackswan_harness.Prelude.{
  ℕ, zero, suc, Bool, Bool-cases, Text, bytes_eq, bytes_eq_iff, Outcome, ok, err, panic,
  Outcome-cases, some, Option-cases, List, [], ◌∷◌, ◌++◌, append_assoc, append-nil, ◌≡◌, refl, sym,
  ◌∙◌, ap, subst, ◌⊎◌, inl, inr,
}
use blackswan_harness.Core.Error.{HarnessError}
use blackswan_harness.Core.Scenario.{ScenarioStep}
use blackswan_harness.Core.Fault.{FaultContext, FaultInjector, IsFaultInjector}
use blackswan_harness.Replay.Schedule.{steps}
use blackswan_harness.Replay.Schedule.Spec.{actions_on}
use blackswan_harness.Replay.Scheduler
use blackswan_harness.Replay.Scheduler.{Scheduler, advance, is_finished, now_ns}
use blackswan_harness.Replay.Scheduler.Due.{pending, pending-advance}
use blackswan_harness.Replay.Trace
use blackswan_harness.Replay.Trace.{fired}
use blackswan_harness.Replay.Runner.{
  Runner, Progress, act, settle, fire_step, fire, nap, round, run_loop, start, run_inner, is_armed,
}
use blackswan_harness.Replay.Runner.Table.{lookup, lookup-replace}
use blackswan_harness.Replay.Runner.Safety.{
  flag_after, flag_after-append, actions_on-append, flag-fire, injectors-nap, result-settle,
  injectors-settle,
}
use blackswan_harness.Replay.Runner.Fired.{Extends-fire, trace-nap}

-- From `p` to `q`, the steps before one of the list were carried out and recorded, and that one
-- was not. The flag of the fault `f` is what those steps say, unless the step that stopped is on `f`.
pub record Stopped {W I : Type 0} (ops : FaultInjector W I) (f : Text) (p q : Progress W I)
    (ss : List ScenarioStep) : Type 0 where
  pub before : List ScenarioStep
  pub at : ScenarioStep
  pub behind : List ScenarioStep
  pub split : ss ≡ before ++ at ∷ behind
  pub recorded : fired q.trace ≡ fired p.trace ++ before
  pub flag :
      (at.fault_id ≡ f)
      ⊎ (is_armed ops f q.injectors ≡ flag_after (is_armed ops f p.injectors) (actions_on f before))

module _ {W I : Type 0} (ops : FaultInjector W I) (ctx : FaultContext) (f : Text) where
  trace-settle_err :
      (now : ℕ) (step : ScenarioStep) (r : Outcome HarnessError (Unit {0}) × I × W)
      (p : Progress W I) (x : HarnessError)
      → r.0 ≡ err x
      → (settle ops ctx now step r p).1.trace ≡ p.trace
  unfolding settle
  trace-settle_err now step (ok u, i, w) p x h = cc
  trace-settle_err now step (err e, i, w) p x h = refl
  trace-settle_err now step (panic, i, w) p x h = cc

  Stopped-fire_step :
      (now : ℕ) (step : ScenarioStep) (rest : List ScenarioStep) (p : Progress W I)
      (x : HarnessError)
      → (fire_step ops ctx now step p).0 ≡ err x
      → Stopped ops f p (fire_step ops ctx now step p).1 (step ∷ rest)
  unfolding fire_step is_armed lookup actions_on
  Stopped-fire_step now step rest p x h = elim (Option-cases (lookup step.fault_id p.injectors)) [
    | inl e ↦ cc (rw (e, fire_step) at h)
    | inr (i, e) ↦
        let r = act ops ctx step.action i p.world in
        let failed : r.0 ≡ err x =
          sym (result-settle ops ctx now step r p) ∙ (rw (e, fire_step) at h) in
        record {
          before = [];
          at = step;
          behind = rest;
          split = refl;
          recorded =
              rw (e, fire_step)
                (rw (trace-settle_err now step r p x failed) (sym (append-nil (fired p.trace))));
          flag = elim (Bool-cases (bytes_eq step.fault_id f)) [
            | inl same ↦ inl ((bytes_eq_iff step.fault_id f).0 same)
            | inr other ↦ inr (
                rw (e, fire_step)
                  (rw (
                    injectors-settle ops ctx now step r p,
                    is_armed,
                    lookup-replace step.fault_id f r.1 i p.injectors e,
                    other,
                  )))
          ];
        }
  ]

  -- Steps that succeeded, in front of a stop.
  Stopped-behind :
      {p p' q : Progress W I} (done : List ScenarioStep) {ss : List ScenarioStep}
      → fired p'.trace ≡ fired p.trace ++ done
      → is_armed ops f p'.injectors ≡ flag_after (is_armed ops f p.injectors) (actions_on f done)
      → Stopped ops f p' q ss
      → Stopped ops f p q (done ++ ss)
  Stopped-behind {p} {p'} {q} done h k stop = record {
    before = done ++ stop.before;
    at = stop.at;
    behind = stop.behind;
    split = ap (λ rest. done ++ rest) stop.split ∙ sym (append_assoc done stop.before _);
    recorded = stop.recorded ∙ ap (λ l. l ++ stop.before) h ∙ append_assoc (fired p.trace) done _;
    flag = elim stop.flag [
      | inl same ↦ inl same
      | inr flag ↦ inr (rw (actions_on-append f done stop.before, flag_after-append, ← k) flag)
    ];
  }

  module _ (lawful : IsFaultInjector ops) where
    Stopped-fire :
        (now : ℕ) (ss : List ScenarioStep) (p : Progress W I) (x : HarnessError)
        → (fire ops ctx now ss p).0 ≡ err x
        → Stopped ops f p (fire ops ctx now ss p).1 ss
    unfolding fire
    Stopped-fire now [] p x h = cc
    Stopped-fire now (s ∷ ss) p x h =
        let p' = (fire_step ops ctx now s p).1 in
        elim (Outcome-cases (fire_step ops ctx now s p).0) [
          | inl (tt, e) ↦
              let one : fire ops ctx now (s ∷ []) p ≡ (ok tt, p') = rw (e, fire) in
              let clean : (fire ops ctx now (s ∷ []) p).0 ≡ ok tt = rw (one) in
              rw (e, fire)
                (Stopped-behind (s ∷ [])
                  (subst
                    (λ (r : Outcome HarnessError (Unit {0}) × Progress W I).
                      fired r.1.trace ≡ fired p.trace ++ s ∷ [])
                    one (Extends-fire ops ctx now (s ∷ []) p clean).recorded)
                  (subst
                    (λ (r : Outcome HarnessError (Unit {0}) × Progress W I).
                      is_armed ops f r.1.injectors
                      ≡ flag_after (is_armed ops f p.injectors) (actions_on f (s ∷ [])))
                    one (flag-fire ops ctx lawful now (s ∷ []) p f clean))
                  (Stopped-fire now ss p' x (rw (e, fire) at h)))
          | inr (inl (y, e)) ↦ rw (e, fire) (Stopped-fire_step now s ss p y e)
          | inr (inr e) ↦ cc (rw (e, fire) at h)
        ]

Stopped-more :
    {W I : Type 0} (ops : FaultInjector W I) (f : Text) {p q : Progress W I}
    {ss : List ScenarioStep} (rest : List ScenarioStep)
    → Stopped ops f p q ss
    → Stopped ops f p q (ss ++ rest)
Stopped-more ops f rest stop = record {
  before = stop.before;
  at = stop.at;
  behind = stop.behind ++ rest;
  split = ap (λ l. l ++ rest) stop.split ∙ append_assoc stop.before _ rest;
  recorded = stop.recorded;
  flag = stop.flag;
}

module _ {W I : Type 0} (ops : FaultInjector W I) (sleep : ℕ → W → W) (ctx : FaultContext)
    (tick : ℕ) (realtime : Bool) (lawful : IsFaultInjector ops) (f : Text) where
  -- A nap changes neither the injectors nor the trace.
  Stopped-nap :
      (p q : Progress W I) (ss : List ScenarioStep)
      → Stopped ops f (nap ops sleep ctx tick realtime p) q ss
      → Stopped ops f p q ss
  Stopped-nap p q ss stop = record {
    before = stop.before;
    at = stop.at;
    behind = stop.behind;
    split = stop.split;
    recorded = rw (trace-nap ops sleep ctx tick realtime p) at stop.recorded;
    flag = rw (injectors-nap ops sleep ctx tick realtime p) at stop.flag;
  }

  Stopped-run_loop :
      (fuel : ℕ) (s : Scheduler) (p q : Progress W I) (x : HarnessError)
      → run_loop ops sleep ctx tick realtime fuel s p ≡ some (err x, q)
      → Stopped ops f p q (pending s)
  unfolding run_loop
  Stopped-run_loop zero s p q x h = cc
  Stopped-run_loop (suc fuel) s p q x h = elim (Bool-cases (is_finished s)) [
    | inl fin ↦ cc (rw (fin, run_loop) at h)
    | inr more ↦
        let p₀ = nap ops sleep ctx tick realtime p in
        let due = (advance tick s).0 in
        let now = now_ns (advance tick s).1 in
        elim (Outcome-cases (round ops sleep ctx tick realtime s p).0) [
          | inl (tt, e) ↦
              let rest =
                Stopped-run_loop fuel (advance tick s).1 (fire ops ctx now due p₀).1 q x
                  (rw (more, e, run_loop) at h) in
              rw (← pending-advance tick s) (
                Stopped-nap p q _ (
                  Stopped-behind ops ctx f due (Extends-fire ops ctx now due p₀ e).recorded
                    (flag-fire ops ctx lawful now due p₀ f e) rest))
          | inr (inl (y, e)) ↦
              let same : (fire ops ctx now due p₀).1 ≡ q = cc (rw (more, e, run_loop) at h) in
              rw (← pending-advance tick s) (
                Stopped-more ops f _ (
                  Stopped-nap p q due (
                    subst (λ (q : Progress W I). Stopped ops f p₀ q due) same
                      (Stopped-fire ops ctx f lawful now due p₀ y e))))
          | inr (inr e) ↦ cc (rw (more, e, run_loop) at h)
        ]
  ]

-- A run that returns an error has carried out and recorded the steps of its schedule before some step,
-- in order and nothing else, and has recorded neither that step nor any behind it. What was armed by
-- those steps is left armed: a fault that the step is not on is as the actions on it among those
-- steps leave it. The injectors are assumed to report themselves as a call that succeeds asks.
pub run_inner-Stopped :
    {W I : Type 0} (ops : FaultInjector W I) (sleep : ℕ → W → W) (fuel tick : ℕ) (realtime : Bool)
    (r : Runner I) (w : W) (x : HarnessError) (p : Progress W I) (f : Text)
    → IsFaultInjector ops
    → run_inner ops sleep fuel tick realtime r w ≡ some (err x, p)
    → (before : List ScenarioStep) × (at : ScenarioStep) × (behind : List ScenarioStep) × (steps
          r.schedule
        ≡ before ++ at ∷ behind)
      × (fired p.trace ≡ before)
      × ((at.fault_id ≡ f)
          ⊎ (is_armed ops f p.injectors
              ≡ flag_after (is_armed ops f r.injectors) (actions_on f before)))
unfolding run_inner start Scheduler.new Trace.new
run_inner-Stopped ops sleep fuel tick realtime r w x p f lawful h =
    let stop = Stopped-run_loop ops sleep r.ctx tick realtime lawful f fuel _ _ p x h in
    (stop.before, stop.at, stop.behind, stop.split, stop.recorded, stop.flag)
