-- ===== src/Replay/Scheduler/Due.antt =====
-- What `advance` returns: the due prefix of the steps that have not fired.
use blackswan_harness.Prelude.{
  ℕ, zero, suc, ◌+◌, ◌-◌, ◌%◌, ◌≤◌, ◌<◌, true, false, leb, if◌then◌else◌, length, take, drop, All,
  take-append-drop, drop-drop, length-drop, Bool-cases, leb→le, leb-false, List, [], ◌∷◌, ◌++◌, ◌≡◌,
  ◌≢◌, refl, ap, inl, inr, arith,
}
use blackswan_harness.Core.Clock.{u64_mod}
use blackswan_harness.Core.Scenario.{ScenarioStep}
use blackswan_harness.Replay.Schedule.{ValidatedSchedule, steps}
use blackswan_harness.Replay.Schedule.Spec.{IsOrdered}
use blackswan_harness.Replay.Scheduler
use blackswan_harness.Replay.Scheduler.{Scheduler, now_ns, skip_due, advance, is_finished}

-- The steps that have not fired yet.
abbrev pub pending : Scheduler → List ScenarioStep
pending s = drop s.cursor (steps s.schedule)

-- The longest prefix of steps that are due.
unfoldable pub due_prefix : ℕ → List ScenarioStep → List ScenarioStep
due_prefix now [] = []
due_prefix now (s ∷ ss) = if leb s.at_ns now then s ∷ due_prefix now ss else []

abbrev pub later : Scheduler → ℕ → ℕ
later s delta = (now_ns s + delta) % u64_mod

skip_due-eq :
    (now : ℕ) (ss : List ScenarioStep) (c : ℕ) → skip_due now ss c ≡ c + length (due_prefix now ss)
unfolding skip_due due_prefix
skip_due-eq now [] c = omega arith
skip_due-eq now (s ∷ ss) c = ground (arith, skip_due-eq now ss (c + 1))

take-due_prefix :
    (now : ℕ) (ss : List ScenarioStep) → take (length (due_prefix now ss)) ss ≡ due_prefix now ss
unfolding due_prefix
take-due_prefix now [] = refl
take-due_prefix now (s ∷ ss) = ground (arith, take-due_prefix now ss)

end-minus-start : (c n : ℕ) → c + n - c ≡ n
end-minus-start c n = omega arith

module _ (delta : ℕ) (s : Scheduler) where
  pub due-advance : (advance delta s).0 ≡ due_prefix (later s delta) (pending s)
  unfolding advance
  due-advance = rw (skip_due-eq, end-minus-start) (take-due_prefix (later s delta) (pending s))

  pub now_ns-advance : now_ns (advance delta s).1 ≡ later s delta
  unfolding advance
  now_ns-advance = refl

  pub schedule-advance : (advance delta s).1.schedule ≡ s.schedule
  unfolding advance
  schedule-advance = refl

  -- Nothing is lost and nothing fires twice.
  pub pending-advance : (advance delta s).0 ++ pending (advance delta s).1 ≡ pending s
  unfolding advance
  pending-advance =
      rw (skip_due-eq, end-minus-start, ← drop-drop)
        (take-append-drop (length (due_prefix (later s delta) (pending s))) (pending s))

pub now_ns-new : (v : ValidatedSchedule) (start : ℕ) → now_ns (Scheduler.new v start) ≡ start
unfolding Scheduler.new now_ns
now_ns-new v start = refl

nil_of_length : (xs : List ScenarioStep) → length xs ≡ 0 → xs ≡ []
nil_of_length [] h = refl
nil_of_length (x ∷ xs) h = absurd (omega arith)

pub is_finished-pending : (s : Scheduler) → is_finished s ≡ true → pending s ≡ []
unfolding is_finished
is_finished-pending s h =
    nil_of_length (pending s) (omega (arith, length-drop s.cursor (steps s.schedule), leb→le _ _ h))

pub pending-is_finished : (s : Scheduler) → is_finished s ≡ false → pending s ≢ []
unfolding is_finished
pending-is_finished s h e = absurd (
    omega (
      arith,
      length-drop s.cursor (steps s.schedule),
      ap (λ (l : List ScenarioStep). length l) e,
      leb-false _ _ h,
    ))

-- Where times do not decrease, all steps behind one that is late are late.
All-later :
    (now last : ℕ) (ss : List ScenarioStep)
    → now < last
    → IsOrdered last ss
    → All (λ (t : ScenarioStep). now < t.at_ns) ss
All-later now last [] h o = tt
All-later now last (s ∷ ss) h o = (omega arith, All-later now s.at_ns ss (omega arith) o.1)

abbrev pub DueBy : ℕ → List ScenarioStep → Type 0
DueBy now = All (λ (t : ScenarioStep). t.at_ns ≤ now)

abbrev pub After : ℕ → List ScenarioStep → Type 0
After now = All (λ (t : ScenarioStep). now < t.at_ns)

due_prefix-DueBy : (now : ℕ) (ss : List ScenarioStep) → DueBy now (due_prefix now ss)
unfolding due_prefix
due_prefix-DueBy now [] = tt
due_prefix-DueBy now (s ∷ ss) = elim (Bool-cases (leb s.at_ns now)) [
  | inl due ↦ rw due (leb→le _ _ due, due_prefix-DueBy now ss)
  | inr late ↦ rw late tt
]

rest-After :
    (now last : ℕ) (ss : List ScenarioStep)
    → IsOrdered last ss
    → After now (drop (length (due_prefix now ss)) ss)
unfolding due_prefix
rest-After now last [] o = tt
rest-After now last (s ∷ ss) o = elim (Bool-cases (leb s.at_ns now)) [
  | inl due ↦ rw due (rest-After now s.at_ns ss o.1)
  | inr late ↦ rw late (leb-false _ _ late, All-later now s.at_ns ss (leb-false _ _ late) o.1)
]

IsOrdered-drop :
    (n last : ℕ) (ss : List ScenarioStep) → IsOrdered last ss → (k : ℕ) × IsOrdered k (drop n ss)
IsOrdered-drop zero last ss o = (last, o)
IsOrdered-drop (suc n) last [] o = (last, tt)
IsOrdered-drop (suc n) last (s ∷ ss) o = IsOrdered-drop n s.at_ns ss o.1

-- On a schedule whose times do not decrease, `advance` returns the next steps of the schedule: those
-- that it returns are due at the new time, those that it leaves for later calls are not, and the two
-- together are the steps that had not been returned before.
pub advance-exact :
    (delta : ℕ) (s : Scheduler)
    → IsOrdered 0 (steps s.schedule)
    → DueBy (now_ns (advance delta s).1) (advance delta s).0
      × After (now_ns (advance delta s).1) (pending (advance delta s).1)
      × ((advance delta s).0 ++ pending (advance delta s).1 ≡ pending s)
unfolding advance
advance-exact delta s o =
    let now = later s delta in
    let (k, o') = IsOrdered-drop s.cursor 0 (steps s.schedule) o in
    (
      rw (skip_due-eq, end-minus-start, take-due_prefix) (due_prefix-DueBy now (pending s)),
      rw (skip_due-eq, ← drop-drop) (rest-After now k (pending s) o'),
      pending-advance delta s,
    )
