-- ===== src/Replay/Runner/Termination.antt =====
-- When the loop of `run_inner` ends: the virtual clock must reach the last step before it wraps.
use native.Mathlib.Decide.{dec_lt}
use blackswan_harness.Prelude.{
  ℕ, zero, suc, ◌+◌, ◌*◌, ◌%◌, ◌≤◌, ◌<◌, Bool, true, Bool-cases, le→leb, Outcome, ok, err, panic,
  Outcome-cases, none, some, List, [], ◌∷◌, ◌++◌, ◌≡◌, refl, sym, ◌∙◌, ap, subst, inl, inr, arith,
}
use blackswan_harness.Core.Clock.{u64_mod}
use blackswan_harness.Core.Error.{HarnessError}
use blackswan_harness.Core.Scenario.{ScenarioStep}
use blackswan_harness.Core.Fault.{FaultContext, FaultInjector}
use blackswan_harness.Replay.Schedule.{steps}
use blackswan_harness.Replay.Scheduler
use blackswan_harness.Replay.Scheduler.{Scheduler, advance, is_finished, now_ns}
use blackswan_harness.Replay.Scheduler.Due.{
  now_ns-new, pending, due_prefix, later, DueBy, due-advance, now_ns-advance, pending-advance,
  is_finished-pending, pending-is_finished,
}
use blackswan_harness.Replay.Trace.{Trace}
use blackswan_harness.Replay.Runner.{Runner, Progress, fire, round, run_loop, run_inner}

due_prefix-all :
    (now m : ℕ) (ss : List ScenarioStep) → m ≤ now → DueBy m ss → due_prefix now ss ≡ ss
unfolding due_prefix
due_prefix-all now m [] h d = refl
due_prefix-all now m (s ∷ ss) h d =
    rw (le→leb s.at_ns now (omega arith)) (ap (λ l. s ∷ l) (due_prefix-all now m ss h d.1))

pub DueBy-suffix : (m : ℕ) (ss rs : List ScenarioStep) → DueBy m (ss ++ rs) → DueBy m rs
DueBy-suffix m [] rs d = d
DueBy-suffix m (s ∷ ss) rs d = DueBy-suffix m ss rs d.1

nil_of_suffix : (ss rs : List ScenarioStep) → ss ++ rs ≡ ss → rs ≡ []
nil_of_suffix [] rs e = e
nil_of_suffix (s ∷ ss) rs e = nil_of_suffix ss rs (cc)

pending-is_finished-nil : (s : Scheduler) → pending s ≡ [] → is_finished s ≡ true
pending-is_finished-nil s e = elim (Bool-cases (is_finished s)) [
  | inl fin ↦ fin
  | inr more ↦ absurd (pending-is_finished s more e)
]

-- A round that reaches the bound leaves nothing.
pending_reached :
    (tick m : ℕ) (s : Scheduler)
    → DueBy m (pending s)
    → m ≤ later s tick
    → pending (advance tick s).1 ≡ []
pending_reached tick m s d h = nil_of_suffix (pending s) (pending (advance tick s).1) (
    ap (λ l. l ++ pending (advance tick s).1)
      (sym (due-advance tick s ∙ due_prefix-all (later s tick) m (pending s) h d))
    ∙ pending-advance tick s)

module _ {W I : Type 0} (ops : FaultInjector W I) (sleep : ℕ → W → W) (ctx : FaultContext)
    (tick : ℕ) (realtime : Bool) where
  abbrev Returns : ℕ → Scheduler → Progress W I → Type 0
  Returns fuel s p =
      (res : Outcome HarnessError Trace × Progress W I) × (run_loop ops sleep ctx tick realtime fuel
          s p
        ≡ some res)

  run_loop_done :
      (fuel : ℕ) (s : Scheduler) (p : Progress W I) → pending s ≡ [] → Returns (suc fuel) s p
  unfolding run_loop
  run_loop_done fuel s p e = ((ok p.trace, p), rw (pending-is_finished-nil s e, run_loop))

  run_loop_round :
      (fuel : ℕ) (s : Scheduler) (p : Progress W I)
      → ((p' : Progress W I) → Returns fuel (advance tick s).1 p')
      → Returns (suc fuel) s p
  unfolding run_loop
  run_loop_round fuel s p next = elim (Bool-cases (is_finished s)) [
    | inl fin ↦ ((ok p.trace, p), rw (fin, run_loop))
    | inr more ↦ elim (Outcome-cases (round ops sleep ctx tick realtime s p).0) [
      | inl (u, e) ↦ rw (more, e, run_loop) (next (round ops sleep ctx tick realtime s p).1)
      | inr (inl (x, e)) ↦
          ((err x, (round ops sleep ctx tick realtime s p).1), rw (more, e, run_loop))
      | inr (inr e) ↦ ((panic, (round ops sleep ctx tick realtime s p).1), rw (more, e, run_loop))
    ]
  ]

  run_loop-Returns :
      (n m : ℕ) (s : Scheduler) (p : Progress W I)
      → DueBy m (pending s)
      → now_ns s ≤ m
      → m + tick < u64_mod
      → m ≤ now_ns s + n * tick
      → Returns (suc (suc n)) s p
  run_loop-Returns zero m s p d low fits reach =
      let reached : m ≤ later s tick = omega arith in
      run_loop_round 1 s p
        (λ p'. run_loop_done 0 (advance tick s).1 p' (pending_reached tick m s d reached))
  run_loop-Returns (suc n) m s p d low fits reach = elim (dec_lt (later s tick) m) [
    | no h ↦ run_loop_round (suc (suc n)) s p (λ p'.
        run_loop_done (suc n) (advance tick s).1 p' (pending_reached tick m s d (omega arith)))
    | yes h ↦
        let d' =
          DueBy-suffix m (advance tick s).0 (pending (advance tick s).1) (rw pending-advance d) in
        run_loop_round (suc (suc n)) s p (λ p'.
          run_loop-Returns n m (advance tick s).1 p' d' (omega (arith, now_ns-advance tick s)) fits
            (omega (arith, now_ns-advance tick s)))
  ]

-- `m` bounds the times of the steps, and the clock comes to `m + tick` without wrapping: then the loop
-- ends, with a trace, an error or a panic of an injector, after at most `n + 1` rounds if `n` ticks
-- reach `m`.
pub run_inner_returns :
    {W I : Type 0} (ops : FaultInjector W I) (sleep : ℕ → W → W) (tick : ℕ) (realtime : Bool)
    (r : Runner I) (w : W) (n m : ℕ)
    → DueBy m (steps r.schedule)
    → m + tick < u64_mod
    → m ≤ n * tick
    → (res : Outcome HarnessError Trace × Progress W I) × (run_inner ops sleep
          (suc (suc n))
          tick
          realtime
          r
          w
        ≡ some res)
unfolding run_inner Scheduler.new
run_inner_returns ops sleep tick realtime r w n m d fits reach =
    run_loop-Returns ops sleep r.ctx tick realtime n m _ _ d (rw now_ns-new (omega arith)) fits
      (rw now_ns-new (omega arith))

due_prefix-none :
    (now : ℕ) (s : ScenarioStep) (ss : List ScenarioStep)
    → now < s.at_ns
    → due_prefix now (s ∷ ss) ≡ []
unfolding due_prefix
due_prefix-none now s ss h = ground arith

next_multiple :
    (k tick now : ℕ)
    → now ≡ (k * tick) % u64_mod
    → (now + tick) % u64_mod ≡ (suc k * tick) % u64_mod
next_multiple k tick now e = omega arith

module _ {W I : Type 0} (ops : FaultInjector W I) (sleep : ℕ → W → W) (ctx : FaultContext)
    (tick : ℕ) (realtime : Bool) where
  round-nil :
      (s : Scheduler) (p : Progress W I)
      → (advance tick s).0 ≡ []
      → (round ops sleep ctx tick realtime s p).0 ≡ ok tt
  unfolding fire
  round-nil s p e = rw e

  -- A clock that never shows the time of the next step after a tick.
  run_loop_stuck :
      (fuel k : ℕ) (s : Scheduler) (p : Progress W I) (step : ScenarioStep)
      (rest : List ScenarioStep)
      → pending s ≡ step ∷ rest
      → now_ns s ≡ (k * tick) % u64_mod
      → ((j : ℕ) → (j * tick) % u64_mod < step.at_ns)
      → run_loop ops sleep ctx tick realtime fuel s p ≡ none
  unfolding run_loop
  run_loop_stuck zero k s p step rest e now never = refl
  run_loop_stuck (suc fuel) k s p step rest e now never = elim (Bool-cases (is_finished s)) [
    | inl fin ↦ cc (is_finished-pending s fin)
    | inr more ↦
        let next : later s tick ≡ (suc k * tick) % u64_mod = next_multiple k tick (now_ns s) now in
        let none_due : (advance tick s).0 ≡ [] =
          due-advance tick s ∙ rw (e, next) (due_prefix-none _ step rest (never (suc k))) in
        let kept : pending (advance tick s).1 ≡ step ∷ rest =
          subst (λ l. l ++ pending (advance tick s).1 ≡ pending s) none_due (pending-advance tick s)
          ∙ e in
        rw (more, round-nil s p none_due, run_loop)
          (run_loop_stuck fuel (suc k) (advance tick s).1 (round ops sleep ctx tick realtime s p).1
            step rest kept (now_ns-advance tick s ∙ next) never)
  ]

-- Where no multiple of the tick, wrapped to 64 bits, comes up to the time of the first step, the loop
-- never ends: whatever the fuel, it runs out. A tick of 0 is such a case if the first step is later
-- than 0.
pub run_inner_diverges :
    {W I : Type 0} (ops : FaultInjector W I) (sleep : ℕ → W → W) (tick : ℕ) (realtime : Bool)
    (r : Runner I) (w : W) (step : ScenarioStep) (rest : List ScenarioStep)
    → steps r.schedule ≡ step ∷ rest
    → ((k : ℕ) → (k * tick) % u64_mod < step.at_ns)
    → (fuel : ℕ) → run_inner ops sleep fuel tick realtime r w ≡ none
unfolding run_inner Scheduler.new
run_inner_diverges ops sleep tick realtime r w step rest e never fuel =
    run_loop_stuck ops sleep r.ctx tick realtime fuel 0 _ _ step rest e
      (rw now_ns-new (omega arith)) never
