-- ===== src/Replay/Runner/Times.antt =====
-- The times that a run records.
use blackswan_harness.Prelude.{
  ℕ, zero, suc, ◌+◌, ◌%◌, ◌≤◌, ◌<◌, Bool, Bool-cases, ok, Outcome-cases, some, List, [], ◌∷◌, ◌++◌,
  ◌≡◌, subst, sym, inl, inr, arith, All, All-append,
}
use blackswan_harness.Core.Clock.{u64_mod}
use blackswan_harness.Core.Scenario.{ScenarioStep}
use blackswan_harness.Core.Fault.{FaultContext, FaultInjector}
use blackswan_harness.Replay.Schedule.{steps}
use blackswan_harness.Replay.Schedule.Spec.{IsOrdered}
use blackswan_harness.Replay.Scheduler
use blackswan_harness.Replay.Scheduler.{Scheduler, advance, is_finished, now_ns}
use blackswan_harness.Replay.Scheduler.Due.{
  now_ns-new, pending, DueBy, After, now_ns-advance, schedule-advance, advance-exact,
}
use blackswan_harness.Replay.Trace.{Trace, TraceEvent, push}
use blackswan_harness.Replay.Trace
use blackswan_harness.Replay.Runner.{
  Runner, Progress, fire_step, fire, nap, round, run_loop, start, run_inner,
}
use blackswan_harness.Replay.Runner.Fired.{trace-fire_step, trace-nap}
use blackswan_harness.Replay.Runner.Termination.{DueBy-suffix}

-- The recorded time of an event is that of the first tick at which its step is due.
abbrev pub IsTimely : ℕ → ScenarioStep → ℕ → Type 0
IsTimely tick step wall = (step.at_ns ≤ wall) × (wall ≤ step.at_ns + tick)

abbrev pub AllTimely : ℕ → Trace → Type 0
AllTimely tick t = All (λ (e : TraceEvent). IsTimely tick e.step e.wall_ns) t.events

-- The steps are not due yet, or just so.
abbrev NotBefore : ℕ → List ScenarioStep → Type 0
NotBefore now = All (λ (s : ScenarioStep). now ≤ s.at_ns)

After-NotBefore : (now : ℕ) (ss : List ScenarioStep) → After now ss → NotBefore now ss
After-NotBefore now [] h = tt
After-NotBefore now (s ∷ ss) h = (omega arith, After-NotBefore now ss h.1)

NotBefore-prefix :
    (now : ℕ) (ss rs : List ScenarioStep) → NotBefore now (ss ++ rs) → NotBefore now ss
NotBefore-prefix now [] rs h = tt
NotBefore-prefix now (s ∷ ss) rs h = (h.0, NotBefore-prefix now ss rs h.1)

DueBy-prefix : (m : ℕ) (ss rs : List ScenarioStep) → DueBy m (ss ++ rs) → DueBy m ss
DueBy-prefix m [] rs h = tt
DueBy-prefix m (s ∷ ss) rs h = (h.0, DueBy-prefix m ss rs h.1)

due-IsTimely :
    (tick now now' m : ℕ) (ss : List ScenarioStep)
    → m + tick < u64_mod
    → now' ≡ (now + tick) % u64_mod
    → NotBefore now ss
    → DueBy m ss
    → DueBy now' ss
    → All (λ (s : ScenarioStep). IsTimely tick s now') ss
due-IsTimely tick now now' m [] fits e low bound due = tt
due-IsTimely tick now now' m (s ∷ ss) fits e low bound due =
    (omega arith, due-IsTimely tick now now' m ss fits e low.1 bound.1 due.1)

module _ {W I : Type 0} (ops : FaultInjector W I) (ctx : FaultContext) (tick now : ℕ) where
  AllTimely-push :
      (t : Trace) (s : ScenarioStep)
      → AllTimely tick t
      → IsTimely tick s now
      → AllTimely tick (push t s now)
  unfolding push
  AllTimely-push t s h timely =
      All-append (λ (e : TraceEvent). IsTimely tick e.step e.wall_ns) t.events _ h (timely, tt)

  AllTimely-fire :
      (ss : List ScenarioStep) (p : Progress W I)
      → AllTimely tick p.trace
      → All (λ (s : ScenarioStep). IsTimely tick s now) ss
      → (fire ops ctx now ss p).0 ≡ ok tt
      → AllTimely tick (fire ops ctx now ss p).1.trace
  unfolding fire
  AllTimely-fire [] p h timely e = h
  AllTimely-fire (s ∷ ss) p h timely e = elim (Outcome-cases (fire_step ops ctx now s p).0) [
    | inl (u, e') ↦
        let pushed : AllTimely tick (fire_step ops ctx now s p).1.trace =
          rw (trace-fire_step ops ctx now s p e') (AllTimely-push p.trace s h timely.0) in
        rw (e', fire)
          (AllTimely-fire ss (fire_step ops ctx now s p).1 pushed timely.1 (rw (e', fire) at e))
    | inr (inl (x, e')) ↦ cc (rw (e', fire) at e)
    | inr (inr e') ↦ cc (rw (e', fire) at e)
  ]

module _ {W I : Type 0} (ops : FaultInjector W I) (sleep : ℕ → W → W) (ctx : FaultContext)
    (tick m : ℕ) (realtime : Bool) (fits : m + tick < u64_mod) where
  AllTimely-run_loop :
      (fuel : ℕ) (s : Scheduler) (p p' : Progress W I) (t : Trace)
      → IsOrdered 0 (steps s.schedule)
      → DueBy m (pending s)
      → NotBefore (now_ns s) (pending s)
      → AllTimely tick p.trace
      → run_loop ops sleep ctx tick realtime fuel s p ≡ some (ok t, p')
      → AllTimely tick t
  unfolding run_loop
  AllTimely-run_loop zero s p p' t o d low h e = cc
  AllTimely-run_loop (suc fuel) s p p' t o d low h e = elim (Bool-cases (is_finished s)) [
    | inl fin ↦ let same : p.trace ≡ t = ground (arith, fin) in rw (← same) h
    | inr more ↦ elim (Outcome-cases (round ops sleep ctx tick realtime s p).0) [
      | inl (u, e') ↦
          let (due, left, parts) = advance-exact tick s o in
          let low' = subst (NotBefore (now_ns s)) (sym parts) low in
          let d' = subst (DueBy m) (sym parts) d in
          let timely =
            due-IsTimely tick (now_ns s) (now_ns (advance tick s).1) m (advance tick s).0 fits
              (now_ns-advance tick s) (NotBefore-prefix (now_ns s) (advance tick s).0 _ low')
              (DueBy-prefix m (advance tick s).0 _ d') due in
          let h' =
            AllTimely-fire ops ctx tick (now_ns (advance tick s).1) (advance tick s).0
              (nap ops sleep ctx tick realtime p)
              (subst (AllTimely tick) (sym (trace-nap ops sleep ctx tick realtime p)) h) timely
              e' in
          AllTimely-run_loop fuel (advance tick s).1 (round ops sleep ctx tick realtime s p).1 p' t
            (rw (schedule-advance tick s) o) (DueBy-suffix m (advance tick s).0 _ d')
            (After-NotBefore _ _ left) h' (rw (more, e', run_loop) at e)
      | inr (inl (x, e')) ↦ cc (rw (more, e', run_loop) at e)
      | inr (inr e') ↦ cc (rw (more, e', run_loop) at e)
    ]
  ]

NotBefore-zero : (ss : List ScenarioStep) → NotBefore 0 ss
NotBefore-zero [] = tt
NotBefore-zero (s ∷ ss) = (omega arith, NotBefore-zero ss)

-- On a schedule whose times do not decrease and whose last time and one tick fit in 64 bits, every
-- event of a returned trace has a recorded time between the time of its step and one tick later. The
-- sleeps and the world do not enter: the recorded time is that of the virtual clock.
pub run_inner-timely :
    {W I : Type 0} (ops : FaultInjector W I) (sleep : ℕ → W → W) (fuel tick : ℕ) (realtime : Bool)
    (r : Runner I) (w : W) (t : Trace) (p : Progress W I) (m : ℕ)
    → IsOrdered 0 (steps r.schedule)
    → DueBy m (steps r.schedule)
    → m + tick < u64_mod
    → run_inner ops sleep fuel tick realtime r w ≡ some (ok t, p)
    → AllTimely tick t
unfolding run_inner start Scheduler.new Trace.new
run_inner-timely ops sleep fuel tick realtime r w t p m o d fits e =
    AllTimely-run_loop ops sleep r.ctx tick m realtime fits fuel (Scheduler.new r.schedule 0) _ p t
      o d (rw now_ns-new (NotBefore-zero (steps r.schedule))) tt e
