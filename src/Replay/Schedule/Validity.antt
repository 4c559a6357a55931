-- ===== src/Replay/Schedule/Validity.antt =====
-- `validate` accepts the sound schedules and no others.
use blackswan_harness.Prelude.{
  ℕ, Bool, true, false, not, Outcome-cases, Text, bytes_eq, bytes_eq_iff, bytes_eq_refl, Bool-cases,
  Outcome, ok, err, >>=-eq-ok, List, [], ◌∷◌, ◌≡◌, refl, sym, subst, ◌↔◌, ◌⊎◌, inl, inr, arith,
  if◌then◌else◌, ltb, ◌≤◌, ltb-false,
}
use blackswan_harness.Core.Error.{HarnessError, invalid_scenario}
use blackswan_harness.Core.Scenario.{Scenario, ScenarioStep, StepAction, arm, disarm}
use blackswan_harness.Replay.Schedule.{
  ValidatedSchedule, steps, contains, remove, track, out_of_order, armed_twice, never_armed,
  check_step, check_steps, validate,
}
use blackswan_harness.Replay.Schedule.Spec.{IsOrdered, actions_on, Alternates, IsSound}

contains-remove :
    (f g : Text) (armed : List Text)
    → contains f (remove g armed) ≡ (if bytes_eq g f then false else contains f armed)
unfolding contains remove
contains-remove f g [] = ground arith
contains-remove f g (h ∷ armed) =
    ground (arith, contains-remove f g armed, bytes_eq_iff g f, bytes_eq_iff g h, bytes_eq_iff f h)

abbrev is_arm : StepAction → Bool
is_arm arm = true
is_arm disarm = false

-- The faults that are armed after a step, and what the step found.
contains-track :
    (s : ScenarioStep) (a : StepAction) (armed armed' : List Text) (f : Text)
    → track s a armed ≡ ok armed'
    → contains f armed' ≡ (if bytes_eq s.fault_id f then is_arm a else contains f armed)
unfolding track contains
contains-track s arm armed armed' f h =
    ground (arith, bytes_eq_iff s.fault_id f, bytes_eq_iff f s.fault_id)
contains-track s disarm armed armed' f h = ground (
  arith,
  contains-remove f s.fault_id armed,
  bytes_eq_iff s.fault_id f,
  bytes_eq_iff f s.fault_id,
)

track-found :
    (s : ScenarioStep) (a : StepAction) (armed armed' : List Text) (f : Text)
    → track s a armed ≡ ok armed'
    → bytes_eq s.fault_id f ≡ true
    → contains f armed ≡ not (is_arm a)
unfolding track
track-found s arm armed armed' f h e = ground (arith, bytes_eq_iff s.fault_id f)
track-found s disarm armed armed' f h e = ground (arith, bytes_eq_iff s.fault_id f)

Alternates-step :
    (a : StepAction) (same before after : Bool) (acts : List StepAction)
    → after ≡ (if same then is_arm a else before)
    → (same ≡ true → before ≡ not (is_arm a))
    → Alternates after acts ↔ Alternates before (if same then a ∷ acts else acts)
Alternates-step a false before after acts e found = rw e (λ h. h, λ h. h)
Alternates-step arm true before after acts e found = rw (e, found refl) (λ h. h, λ h. h)
Alternates-step disarm true before after acts e found = rw (e, found refl) (λ h. h, λ h. h)

abbrev AllAlternate : List Text → List ScenarioStep → Type 0
AllAlternate armed ss = (f : Text) → Alternates (contains f armed) (actions_on f ss)

-- A step that is tracked is the next one in the alternation of its fault.
track-AllAlternate :
    (s : ScenarioStep) (ss : List ScenarioStep) (armed armed' : List Text)
    → track s s.action armed ≡ ok armed'
    → AllAlternate armed' ss ↔ AllAlternate armed (s ∷ ss)
unfolding actions_on
track-AllAlternate s ss armed armed' h = (λ all f. (step f).0 (all f), λ all f. (step f).1 (all f))
  where
    step :
        (f : Text)
        → Alternates (contains f armed') (actions_on f ss)
          ↔ Alternates (contains f armed) (actions_on f (s ∷ ss))
    step f =
        Alternates-step s.action (bytes_eq s.fault_id f) (contains f armed) (contains f armed')
          (actions_on f ss) (contains-track s s.action armed armed' f h)
          (track-found s s.action armed armed' f h)

track_total :
    (s : ScenarioStep) (a : StepAction) (armed : List Text) (acts : List StepAction)
    → Alternates (contains s.fault_id armed) (a ∷ acts)
    → (armed' : List Text) × (track s a armed ≡ ok armed')
unfolding track
track_total s arm armed acts h = elim (Bool-cases (contains s.fault_id armed)) [
  | inl e ↦ absurd (rw e at h)
  | inr e ↦ (s.fault_id ∷ armed, rw e)
]
track_total s disarm armed acts h = elim (Bool-cases (contains s.fault_id armed)) [
  | inl e ↦ (remove s.fault_id armed, rw e)
  | inr e ↦ absurd (rw e at h)
]

check_step-ok :
    (s : ScenarioStep) (armed armed' : List Text) (last : ℕ)
    → check_step armed last s ≡ ok armed'
    → (last ≤ s.at_ns) × (track s s.action armed ≡ ok armed')
unfolding check_step
check_step-ok s armed armed' last h = elim (Bool-cases (ltb s.at_ns last)) [
  | inl e ↦ cc (rw e at h)
  | inr e ↦ (ltb-false _ _ e, rw e at h)
]

check_step_total :
    (s : ScenarioStep) (armed armed' : List Text) (last : ℕ)
    → last ≤ s.at_ns
    → track s s.action armed ≡ ok armed'
    → check_step armed last s ≡ ok armed'
unfolding check_step
check_step_total s armed armed' last h e = ground arith

check_steps_sound :
    (ss : List ScenarioStep) (armed : List Text) (last : ℕ)
    → check_steps armed last ss ≡ ok tt
    → IsOrdered last ss × AllAlternate armed ss
unfolding check_steps actions_on
check_steps_sound [] armed last h = (tt, λ f. tt)
check_steps_sound (s ∷ ss) armed last h =
    let (armed', e, rest) = >>=-eq-ok (check_step armed last s) (λ a. check_steps a s.at_ns ss) h in
    let (le, tracked) = check_step-ok s armed armed' last e in
    let (ordered, alternate) = check_steps_sound ss armed' s.at_ns rest in
    ((le, ordered), (track-AllAlternate s ss armed armed' tracked).0 alternate)

pub actions_on_self :
    (s : ScenarioStep) (ss : List ScenarioStep)
    → actions_on s.fault_id (s ∷ ss) ≡ s.action ∷ actions_on s.fault_id ss
unfolding actions_on
actions_on_self s ss = rw bytes_eq_refl

check_steps_complete :
    (ss : List ScenarioStep) (armed : List Text) (last : ℕ)
    → IsOrdered last ss
    → AllAlternate armed ss
    → check_steps armed last ss ≡ ok tt
unfolding check_steps
check_steps_complete [] armed last o h = refl
check_steps_complete (s ∷ ss) armed last o h =
    let (armed', tracked) =
      track_total s s.action armed (actions_on s.fault_id ss)
        (rw actions_on_self at (h s.fault_id)) in
    rw (check_step_total s armed armed' last o.0 tracked) (
      check_steps_complete ss armed' s.at_ns o.1
        ((track-AllAlternate s ss armed armed' tracked).1 h))

-- `validate` returns a schedule, the one that it was given, exactly when the times of the steps do
-- not decrease and the actions on every fault alternate between arm and disarm, an arm first.
pub validate-IsSound :
    (sc : Scenario) → (validate sc ≡ ok (record { scenario = sc })) ↔ IsSound sc.steps
unfolding validate contains
validate-IsSound sc = (
  λ h.
      let (checked, e, _) = >>=-eq-ok (check_steps [] 0 sc.steps) _ h in
      let (o, a) = check_steps_sound sc.steps [] 0 e in record { ordered = o; alternating = a },
  λ h. rw (check_steps_complete sc.steps [] 0 h.ordered h.alternating),
)

-- What `validate` returns is what it was given, and is sound.
pub validate-ok :
    (sc : Scenario) (v : ValidatedSchedule)
    → validate sc ≡ ok v
    → (v.scenario ≡ sc) × IsSound (steps v)
unfolding validate steps
validate-ok sc v h = elim (Outcome-cases (check_steps [] 0 sc.steps)) [
  | inl (u, e) ↦
      let same : sc ≡ v.scenario = cc (rw (e, validate) at h) in
      (
        sym same,
        subst (λ (sc : Scenario). IsSound sc.steps) same
            ((validate-IsSound sc).0 (rw (validate, e))),
      )
  | inr (inl (x, e)) ↦ cc (rw (e, validate) at h)
  | inr (inr e) ↦ cc (rw (e, validate) at h)
]

abbrev IsInvalid : {A : Type 0} → Outcome HarnessError A → Type 0
IsInvalid r = (why : Text) × (r ≡ err (invalid_scenario why))

track_fails :
    (s : ScenarioStep) (a : StepAction) (armed : List Text)
    → ((armed' : List Text) × (track s a armed ≡ ok armed')) ⊎ IsInvalid (track s a armed)
unfolding track armed_twice never_armed
track_fails s arm armed = elim (Bool-cases (contains s.fault_id armed)) [
  | inl e ↦ rw e (inr (_, refl))
  | inr e ↦ rw e (inl (_, refl))
]
track_fails s disarm armed = elim (Bool-cases (contains s.fault_id armed)) [
  | inl e ↦ rw e (inl (_, refl))
  | inr e ↦ rw e (inr (_, refl))
]

check_step_fails :
    (s : ScenarioStep) (armed : List Text) (last : ℕ)
    → ((armed' : List Text) × (check_step armed last s ≡ ok armed'))
      ⊎ IsInvalid (check_step armed last s)
unfolding check_step out_of_order
check_step_fails s armed last = elim (Bool-cases (ltb s.at_ns last)) [
  | inl e ↦ rw e (inr (_, refl))
  | inr e ↦ rw e (track_fails s s.action armed)
]

check_steps_fail :
    (ss : List ScenarioStep) (armed : List Text) (last : ℕ)
    → (check_steps armed last ss ≡ ok tt) ⊎ IsInvalid (check_steps armed last ss)
unfolding check_steps
check_steps_fail [] armed last = inl refl
check_steps_fail (s ∷ ss) armed last = elim (check_step_fails s armed last) [
  | inl (armed', e) ↦ rw e (check_steps_fail ss armed' s.at_ns)
  | inr (why, e) ↦ inr (why, rw e)
]

-- Every schedule that is not sound is refused with `InvalidScenario`, and never by a panic.
pub validate-rejects :
    (sc : Scenario) → ¬ IsSound sc.steps → (why : Text) × (validate sc ≡ err (invalid_scenario why))
unfolding validate
validate-rejects sc bad = elim (check_steps_fail sc.steps [] 0) [
  | inl e ↦ absurd (bad ((validate-IsSound sc).0 (rw e)))
  | inr (why, e) ↦ (why, rw e)
]
