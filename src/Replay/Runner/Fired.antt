-- ===== src/Replay/Runner/Fired.antt =====
-- What a run that succeeds has recorded: the whole schedule, whatever the injectors, the world, the
-- tick and the pacing.
use blackswan_harness.Prelude.{
  ℕ, zero, suc, Bool, true, Bool-cases, Outcome, ok, err, panic, Outcome-cases, some, Option-cases,
  List, [], ◌∷◌, ◌++◌, append_assoc, append-nil, ◌≡◌, refl, sym, ◌∙◌, ap, subst, inl, inr, arith,
}
use blackswan_harness.Core.Error.{HarnessError}
use blackswan_harness.Core.Scenario.{ScenarioStep}
use blackswan_harness.Core.Fault.{FaultContext, FaultInjector}
use blackswan_harness.Replay.Schedule.{ValidatedSchedule, steps}
use blackswan_harness.Replay.Scheduler
use blackswan_harness.Replay.Scheduler.{Scheduler, advance, is_finished, now_ns}
use blackswan_harness.Replay.Scheduler.Due.{pending, pending-advance, is_finished-pending}
use blackswan_harness.Replay.Trace
use blackswan_harness.Replay.Trace.{Trace, push, fired, matches_schedule}
use blackswan_harness.Replay.Trace.Match.{matches_schedule_iff, fired-push}
use blackswan_harness.Replay.Runner.{
  Runner, Progress, act, settle, fire_step, fire, nap, round, run_loop, start, run_inner,
}
use blackswan_harness.Replay.Runner.Table.{lookup}

-- `t` is `t'` with the steps `ss` recorded behind it.
pub record Extends (t : Trace) (ss : List ScenarioStep) (t' : Trace) : Type 0 where
  pub same_name : t'.scenario_name ≡ t.scenario_name
  pub same_seed : t'.seed ≡ t.seed
  pub recorded : fired t' ≡ fired t ++ ss

Extends-nil : (t : Trace) → Extends t [] t
Extends-nil t = record { same_name = refl; same_seed = refl; recorded = sym (append-nil (fired t)) }

Extends-trans :
    {t u v : Trace} {ss rs : List ScenarioStep}
    → Extends t ss u
    → Extends u rs v
    → Extends t (ss ++ rs) v
Extends-trans {t} {ss} {rs} a b = record {
  same_name = b.same_name ∙ a.same_name;
  same_seed = b.same_seed ∙ a.same_seed;
  recorded = rw (b.recorded, a.recorded) (append_assoc (fired t) ss rs);
}

Extends-push : (t : Trace) (s : ScenarioStep) (now : ℕ) → Extends t (s ∷ []) (push t s now)
unfolding push
Extends-push t s now = record { same_name = refl; same_seed = refl; recorded = fired-push t s now }

module _ {W I : Type 0} (ops : FaultInjector W I) (ctx : FaultContext) where
  trace-settle :
      (now : ℕ) (step : ScenarioStep) (r : Outcome HarnessError (Unit {0}) × I × W)
      (p : Progress W I)
      → (settle ops ctx now step r p).0 ≡ ok tt
      → (settle ops ctx now step r p).1.trace ≡ push p.trace step now
  unfolding settle
  trace-settle now step (ok u, i, w) p h = refl
  trace-settle now step (err e, i, w) p h = cc
  trace-settle now step (panic, i, w) p h = cc

  pub trace-fire_step :
      (now : ℕ) (step : ScenarioStep) (p : Progress W I)
      → (fire_step ops ctx now step p).0 ≡ ok tt
      → (fire_step ops ctx now step p).1.trace ≡ push p.trace step now
  unfolding fire_step
  trace-fire_step now step p h = elim (Option-cases (lookup step.fault_id p.injectors)) [
    | inl e ↦ cc (rw (e, fire_step) at h)
    | inr (i, e) ↦
        rw (e, fire_step)
          (trace-settle now step (act ops ctx step.action i p.world) p (rw (e, fire_step) at h))
  ]

  pub Extends-fire :
      (now : ℕ) (ss : List ScenarioStep) (p : Progress W I)
      → (fire ops ctx now ss p).0 ≡ ok tt
      → Extends p.trace ss (fire ops ctx now ss p).1.trace
  unfolding fire
  Extends-fire now [] p h = Extends-nil p.trace
  Extends-fire now (s ∷ ss) p h = elim (Outcome-cases (fire_step ops ctx now s p).0) [
    | inl (u, e) ↦
        let now_fired : Extends p.trace (s ∷ []) (fire_step ops ctx now s p).1.trace =
          rw (trace-fire_step now s p e) (Extends-push p.trace s now) in
        rw (e, fire)
          (Extends-trans now_fired
            (Extends-fire now ss (fire_step ops ctx now s p).1 (rw (e, fire) at h)))
    | inr (inl (x, e)) ↦ cc (rw (e, fire) at h)
    | inr (inr e) ↦ cc (rw (e, fire) at h)
  ]

module _ {W I : Type 0} (ops : FaultInjector W I) (sleep : ℕ → W → W) (ctx : FaultContext)
    (tick : ℕ) (realtime : Bool) where
  pub trace-nap : (p : Progress W I) → (nap ops sleep ctx tick realtime p).trace ≡ p.trace
  unfolding nap
  trace-nap p = ground arith

  Extends-round :
      (s : Scheduler) (p : Progress W I)
      → (round ops sleep ctx tick realtime s p).0 ≡ ok tt
      → Extends p.trace (advance tick s).0 (round ops sleep ctx tick realtime s p).1.trace
  Extends-round s p e =
      subst
        (λ (t : Trace).
          Extends t (advance tick s).0 (round ops sleep ctx tick realtime s p).1.trace)
        (trace-nap p) (Extends-fire ops ctx _ _ (nap ops sleep ctx tick realtime p) e)

  Extends-run_loop :
      (fuel : ℕ) (s : Scheduler) (p p' : Progress W I) (t : Trace)
      → run_loop ops sleep ctx tick realtime fuel s p ≡ some (ok t, p')
      → Extends p.trace (pending s) t
  unfolding run_loop
  Extends-run_loop zero s p p' t h = cc
  Extends-run_loop (suc fuel) s p p' t h = elim (Bool-cases (is_finished s)) [
    | inl fin ↦
        let same : p.trace ≡ t = ground (arith, fin) in
        rw (is_finished-pending s fin, ← same) (Extends-nil p.trace)
    | inr more ↦ elim (Outcome-cases (round ops sleep ctx tick realtime s p).0) [
      | inl (u, e) ↦
          let rest =
            Extends-run_loop fuel (advance tick s).1 (round ops sleep ctx tick realtime s p).1 p' t
              (rw (more, e, run_loop) at h) in
          rw (← pending-advance tick s) (Extends-trans (Extends-round s p e) rest)
      | inr (inl (x, e)) ↦ cc (rw (more, e, run_loop) at h)
      | inr (inr e) ↦ cc (rw (more, e, run_loop) at h)
    ]
  ]

-- A run that returns a trace has recorded every step of its schedule, in the order of the schedule and
-- nothing else, under the name and the seed of the schedule.
pub run_inner-fired :
    {W I : Type 0} (ops : FaultInjector W I) (sleep : ℕ → W → W) (fuel tick : ℕ) (realtime : Bool)
    (r : Runner I) (w : W) (t : Trace) (p : Progress W I)
    → run_inner ops sleep fuel tick realtime r w ≡ some (ok t, p)
    → (fired t ≡ steps r.schedule)
      × (t.scenario_name ≡ r.schedule.scenario.name)
      × (t.seed ≡ r.schedule.scenario.seed)
unfolding run_inner start Scheduler.new Trace.new
run_inner-fired ops sleep fuel tick realtime r w t p h =
    let x = Extends-run_loop ops sleep r.ctx tick realtime fuel _ _ p t h in
    (x.recorded, x.same_name, x.same_seed)

-- Two runs of one schedule that return traces have matching traces, whatever the ticks, the pacing,
-- the injectors, the contexts and the worlds of the two.
pub runs_match :
    {V W I J : Type 0} (ops : FaultInjector V I) (sleep : ℕ → V → V) (fuel tick : ℕ)
    (realtime : Bool) (r : Runner I) (v : V) (ops' : FaultInjector W J) (sleep' : ℕ → W → W)
    (fuel' tick' : ℕ) (realtime' : Bool) (r' : Runner J) (w : W) (t t' : Trace) (p : Progress V I)
    (p' : Progress W J)
    → r.schedule ≡ r'.schedule
    → run_inner ops sleep fuel tick realtime r v ≡ some (ok t, p)
    → run_inner ops' sleep' fuel' tick' realtime' r' w ≡ some (ok t', p')
    → matches_schedule t t' ≡ true
runs_match ops sleep fuel tick realtime r v ops' sleep' fuel' tick' realtime' r' w t t' p p' same h
      h' =
    let (f, _, s) = run_inner-fired ops sleep fuel tick realtime r v t p h in
    let (f', _, s') = run_inner-fired ops' sleep' fuel' tick' realtime' r' w t' p' h' in
    (matches_schedule_iff t t').1 (
      s ∙ ap (λ (v : ValidatedSchedule). v.scenario.seed) same ∙ sym s',
      f ∙ ap (λ (v : ValidatedSchedule). steps v) same ∙ sym f',
    )
