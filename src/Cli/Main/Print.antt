-- ===== src/Cli/Main/Print.antt =====
-- crates/cli/src/main.rs: `print_trace_summary`.
use blackswan_harness.Prelude.{
  ℕ, zero, suc, ◌-◌, ◌/◌, ◌==◌, if◌then◌else◌, Text, codes, List, [], ◌∷◌, ◌++◌,
}
use blackswan_harness.Prelude.Decimal.{to_string}
use blackswan_harness.Core.Scenario.{StepAction, arm, disarm}
use blackswan_harness.Replay.Trace.{TraceEvent, Trace}

abbrev pub newline : Text
newline = 10 ∷ []

-- The `char`s of a text: the bytes that do not continue one.
pub count_chars : Text → ℕ
count_chars [] = 0
count_chars (b ∷ s) = let rest = count_chars s in if b / 64 == 2 then rest else suc rest

spaces : ℕ → Text
spaces zero = []
spaces (suc n) = b' ' ∷ spaces n

-- `{:>width$}` and `{:<width$}`.
pub pad_left : ℕ → Text → Text
unfolding spaces
pad_left width s = spaces (width - count_chars s) ++ s

pub pad_right : ℕ → Text → Text
unfolding spaces
pad_right width s = s ++ spaces (width - count_chars s)

-- The derived `{:?}` of actions.
show_action : StepAction → Text
show_action arm = codes "Arm"
show_action disarm = codes "Disarm"

event_line : TraceEvent → Text
unfolding show_action
event_line e =
    codes "  "
    ++ (pad_left 14 (to_string e.step.at_ns)
        ++ (codes " ns  "
            ++ (pad_right 20 e.step.fault_id
                ++ (codes " " ++ (show_action e.step.action ++ newline)))))

event_lines : List TraceEvent → Text
event_lines [] = []
event_lines (e ∷ es) = event_line e ++ event_lines es

-- What it prints.
pub print_trace_summary : Trace → Text
print_trace_summary t =
    codes "scenario: "
    ++ (t.scenario_name
        ++ (codes " (seed "
            ++ (to_string t.seed ++ (codes ")" ++ (newline ++ event_lines t.events)))))
