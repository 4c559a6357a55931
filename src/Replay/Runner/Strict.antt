-- ===== src/Replay/Runner/Strict.antt =====
-- The calls that a run makes: never on a fault with no injector, and no arm of an injector that is
-- armed or disarm of one that is not.
use blackswan_harness.Prelude.{
  ℕ, zero, suc, Bool, true, false, Bool-cases, if◌then◌else◌, Text, bytes_eq, ok, panic,
  Outcome-cases, none, some, Option-cases, List, [], ◌∷◌, ◌++◌, ◌≡◌, refl, ap, subst, ◌⊎◌, inl, inr,
}
use blackswan_harness.Core.Scenario.{ScenarioStep, StepAction, arm, disarm}
use blackswan_harness.Core.Fault.{FaultContext, FaultInjector, IsFaultInjector}
use blackswan_harness.Replay.Schedule.{ValidatedSchedule, steps}
use blackswan_harness.Replay.Schedule.Spec.{actions_on, Alternates, IsSound}
use blackswan_harness.Replay.Schedule.Validity.{actions_on_self}
use blackswan_harness.Replay.Scheduler
use blackswan_harness.Replay.Scheduler.{Scheduler, advance, is_finished, now_ns}
use blackswan_harness.Replay.Scheduler.Due.{pending, pending-advance}
use blackswan_harness.Replay.Runner.{
  Runner, Progress, new, check_registered, act, settle, fire_step, fire, nap, round, run_loop,
  start, run_inner, is_armed,
}
use blackswan_harness.Replay.Runner.Table.{Registry, lookup}
use blackswan_harness.Replay.Runner.Made.{nothing_on, new-ok}
use blackswan_harness.Replay.Runner.Safety.{is_arm, is_armed-fire_step, injectors-nap}

-- The injectors, made to panic where they are armed when armed, or disarmed when not.
unfoldable pub strict : {W I : Type 0} → FaultInjector W I → FaultInjector W I
strict ops = record {
  id = ops.id;
  arm = λ ctx i w. if ops.is_armed i then (panic, i, w) else ops.arm ctx i w;
  disarm = λ i w. if ops.is_armed i then ops.disarm i w else (panic, i, w);
  is_armed = ops.is_armed;
}

-- Every step has an injector, and the actions to come alternate from its state.
abbrev Ready : {W I : Type 0} → FaultInjector W I → Registry I → List ScenarioStep → Type 0
Ready ops injectors ss =
    (f : Text)
    → (is_armed ops f injectors ≡ none × actions_on f ss ≡ [])
      ⊎ ((b : Bool) × (is_armed ops f injectors ≡ some b) × Alternates b (actions_on f ss))

next-Alternates :
    (a : StepAction) (b : Bool) (acts : List StepAction)
    → Alternates b (a ∷ acts)
    → Alternates (is_arm a) acts
next-Alternates arm true acts h = absurd h
next-Alternates arm false acts h = h
next-Alternates disarm true acts h = h
next-Alternates disarm false acts h = absurd h

module _ {W I : Type 0} (ops : FaultInjector W I) (ctx : FaultContext) where
  lookup_of_flag :
      (f : Text) (r : Registry I) (b : Bool)
      → is_armed ops f r ≡ some b
      → (i : I) × (lookup f r ≡ some i) × (ops.is_armed i ≡ b)
  unfolding is_armed
  lookup_of_flag f r b h = elim (Option-cases (lookup f r)) [
    | inl e ↦ cc (rw (e, is_armed) at h)
    | inr (i, e) ↦ (i, e, cc (rw (e, is_armed) at h))
  ]

  act-strict :
      (a : StepAction) (i : I) (w : W) (acts : List StepAction)
      → Alternates (ops.is_armed i) (a ∷ acts)
      → act (strict ops) ctx a i w ≡ act ops ctx a i w
  unfolding act strict
  act-strict arm i w acts h = elim (Bool-cases (ops.is_armed i)) [
    | inl e ↦ absurd (rw e at h)
    | inr e ↦ rw e
  ]
  act-strict disarm i w acts h = elim (Bool-cases (ops.is_armed i)) [
    | inl e ↦ rw e
    | inr e ↦ absurd (rw e at h)
  ]

  fire_step-strict :
      (now : ℕ) (s : ScenarioStep) (ss : List ScenarioStep) (p : Progress W I)
      → Ready ops p.injectors (s ∷ ss)
      → fire_step (strict ops) ctx now s p ≡ fire_step ops ctx now s p
  unfolding fire_step settle
  fire_step-strict now s ss p ready = elim (ready s.fault_id) [
    | inl (_, e) ↦ cc (actions_on_self s ss)
    | inr (b, flag, alternates) ↦
        let (i, found, armed) = lookup_of_flag s.fault_id p.injectors b flag in
        let alternates' : Alternates (ops.is_armed i) (s.action ∷ actions_on s.fault_id ss) =
          rw (armed, ← actions_on_self) alternates in
        rw (found, fire_step, act-strict s.action i p.world (actions_on s.fault_id ss) alternates')
  ]

  module _ (lawful : IsFaultInjector ops) where
    Ready-fire_step :
        (now : ℕ) (s : ScenarioStep) (ss : List ScenarioStep) (p : Progress W I)
        → Ready ops p.injectors (s ∷ ss)
        → (fire_step ops ctx now s p).0 ≡ ok tt
        → Ready ops (fire_step ops ctx now s p).1.injectors ss
    unfolding actions_on
    Ready-fire_step now s ss p ready h f = elim (Bool-cases (bytes_eq s.fault_id f)) [
      | inl same ↦ elim (ready f) [
        | inl (_, e) ↦ cc (rw same at e)
        | inr (b, _, alternates) ↦ inr (
          is_arm s.action,
          rw (is_armed-fire_step ops ctx lawful now s p f h, same),
          next-Alternates s.action b (actions_on f ss) (rw same at alternates),
        )
      ]
      | inr other ↦
          rw (is_armed-fire_step ops ctx lawful now s p f h, other) (rw other at (ready f))
    ]

    -- `rs` are the steps that the scheduler keeps for later.
    fire-strict :
        (now : ℕ) (ss rs : List ScenarioStep) (p : Progress W I)
        → Ready ops p.injectors (ss ++ rs)
        → (fire (strict ops) ctx now ss p ≡ fire ops ctx now ss p)
          × ((fire ops ctx now ss p).0 ≡ ok tt → Ready ops (fire ops ctx now ss p).1.injectors rs)
    unfolding fire
    fire-strict now [] rs p ready = (refl, λ _. ready)
    fire-strict now (s ∷ ss) rs p ready = elim (Outcome-cases (fire_step ops ctx now s p).0) [
      | inl (u, e) ↦
          let (same, next) =
            fire-strict now ss rs (fire_step ops ctx now s p).1
              (Ready-fire_step now s (ss ++ rs) p ready e) in
          (
            rw
                (
                  fire_step-strict now s (ss ++ rs) p ready,
                  e,
                  fire,
                  fire_step-strict now s (ss ++ rs) p ready,
                )
                same,
            rw (e, fire) next,
          )
      | inr (inl (x, e)) ↦ (
        rw (
          fire_step-strict now s (ss ++ rs) p ready,
          e,
          fire,
          fire_step-strict now s (ss ++ rs) p ready,
        ),
        λ h. cc (rw (e, fire) at h),
      )
      | inr (inr e) ↦ (
        rw (
          fire_step-strict now s (ss ++ rs) p ready,
          e,
          fire,
          fire_step-strict now s (ss ++ rs) p ready,
        ),
        λ h. cc (rw (e, fire) at h),
      )
    ]

module _ {W I : Type 0} (ops : FaultInjector W I) (sleep : ℕ → W → W) (ctx : FaultContext)
    (tick : ℕ) (realtime : Bool) (lawful : IsFaultInjector ops) where
  round-strict :
      (s : Scheduler) (p : Progress W I)
      → Ready ops p.injectors (pending s)
      → (round (strict ops) sleep ctx tick realtime s p ≡ round ops sleep ctx tick realtime s p)
        × ((round ops sleep ctx tick realtime s p).0 ≡ ok tt
            → Ready ops
                (round ops sleep ctx tick realtime s p).1.injectors
                (pending (advance tick s).1))
  unfolding nap
  round-strict s p ready =
      let napped : Progress W I = nap ops sleep ctx tick realtime p in
      fire-strict ops ctx lawful (now_ns (advance tick s).1) (advance tick s).0
        (pending (advance tick s).1) napped (rw (pending-advance, injectors-nap) ready)

  run_loop-strict :
      (fuel : ℕ) (s : Scheduler) (p : Progress W I)
      → Ready ops p.injectors (pending s)
      → run_loop (strict ops) sleep ctx tick realtime fuel s p
        ≡ run_loop ops sleep ctx tick realtime fuel s p
  unfolding run_loop
  run_loop-strict zero s p ready = refl
  run_loop-strict (suc fuel) s p ready = elim (Bool-cases (is_finished s)) [
    | inl fin ↦ rw (fin, run_loop)
    | inr more ↦
        let (same, next) = round-strict s p ready in
        elim (Outcome-cases (round ops sleep ctx tick realtime s p).0) [
          | inl (u, e) ↦
              rw (more, run_loop, same, e, run_loop, same)
                (run_loop-strict fuel (advance tick s).1 (round ops sleep ctx tick realtime s p).1
                  (next e))
          | inr (inl (x, e)) ↦ rw (more, run_loop, same, e, same)
          | inr (inr e) ↦ rw (more, run_loop, same, e, same)
        ]
  ]

Ready-start :
    {W I : Type 0} (ops : FaultInjector W I) (v : ValidatedSchedule) (injectors : Registry I)
    → IsSound (steps v)
    → ((f : Text) (b : Bool) → is_armed ops f injectors ≡ some b → b ≡ false)
    → check_registered injectors (steps v) ≡ ok tt
    → Ready ops injectors (steps v)
unfolding is_armed
Ready-start ops v injectors sound unarmed registered f = elim (Option-cases (lookup f injectors)) [
  | inl e ↦ inl (rw (is_armed, e), nothing_on injectors (steps v) f registered e)
  | inr (i, e) ↦
      let flag : is_armed ops f injectors ≡ some (ops.is_armed i) = rw (is_armed, e) in
      inr (false, rw flag (ap some (unarmed f (ops.is_armed i) flag)), sound.alternating f)
]

-- A run of a sound schedule, with registered and lawful injectors that are all unarmed at the
-- start, is the same as with injectors that panic when they are armed while armed or disarmed while
-- unarmed.
pub run_inner-strict :
    {W I : Type 0} (ops : FaultInjector W I) (sleep : ℕ → W → W) (fuel tick : ℕ) (realtime : Bool)
    (v : ValidatedSchedule) (injectors : Registry I) (ctx : FaultContext) (r : Runner I) (w : W)
    → IsFaultInjector ops
    → IsSound (steps v)
    → ((f : Text) (b : Bool) → is_armed ops f injectors ≡ some b → b ≡ false)
    → new v injectors ctx ≡ ok r
    → run_inner (strict ops) sleep fuel tick realtime r w
      ≡ run_inner ops sleep fuel tick realtime r w
unfolding run_inner start Scheduler.new
run_inner-strict ops sleep fuel tick realtime v injectors ctx r w lawful sound unarmed h =
    let (registered, made) = new-ok v injectors ctx r h in
    subst
      (λ r.
        run_inner (strict ops) sleep fuel tick realtime r w
        ≡ run_inner ops sleep fuel tick realtime r w)
      made
      (run_loop-strict ops sleep ctx tick realtime lawful fuel _ _
        (Ready-start ops v injectors sound unarmed registered))
