-- ===== src/Cli/Main/Tests/Codec.antt =====
-- A stand-in for the JSON of traces, which is read back: a text is written behind its length.
use blackswan_harness.Prelude.{
  ℕ, zero, suc, Bytes, length, take, drop, take-append, drop-append, List, [], ◌∷◌, ◌++◌, ◌≡◌, refl,
  inr,
}
use blackswan_harness.Core.Scenario.{StepAction, arm, disarm}
use blackswan_harness.Replay.Trace.{Trace, TraceEvent}
use blackswan_harness.Replay.Trace.Store.{Json}

abbrev action_code : StepAction → ℕ
action_code arm = 0
action_code disarm = 1

abbrev encode_events : List TraceEvent → Bytes
encode_events [] = []
encode_events (e ∷ es) =
    e.step.at_ns
    ∷ action_code e.step.action
    ∷ e.wall_ns
    ∷ length e.step.fault_id
    ∷ (e.step.fault_id ++ encode_events es)

abbrev pub encode : Trace → Bytes
encode t =
    t.seed ∷ length t.scenario_name ∷ (t.scenario_name ++ length t.events ∷ encode_events t.events)

abbrev action_of : ℕ → StepAction
action_of zero = arm
action_of (suc n) = disarm

abbrev decode_events : ℕ → Bytes → List TraceEvent
decode_events zero s = []
decode_events (suc n) (at ∷ a ∷ wall ∷ k ∷ s) =
    record {
      step = record { at_ns = at; fault_id = take k s; action = action_of a };
      wall_ns = wall;
    }
    ∷ decode_events n (drop k s)
decode_events (suc n) s = []

abbrev decode_counted : Bytes → List TraceEvent
decode_counted [] = []
decode_counted (n ∷ s) = decode_events n s

abbrev pub decode : Bytes → Trace
decode (seed ∷ k ∷ s) = record {
  scenario_name = take k s;
  seed = seed;
  events = decode_counted (drop k s);
}
decode s = record { scenario_name = []; seed = 0; events = [] }

action_of-code : (a : StepAction) → action_of (action_code a) ≡ a
action_of-code arm = refl
action_of-code disarm = refl

decode_events-encode : (es : List TraceEvent) → decode_events (length es) (encode_events es) ≡ es
decode_events-encode [] = refl
decode_events-encode (e ∷ es) = rw (
  take-append e.step.fault_id (encode_events es),
  drop-append e.step.fault_id (encode_events es),
  action_of-code e.step.action,
  decode_events-encode es,
)

pub decode-encode : (t : Trace) → decode (encode t) ≡ t
decode-encode t = rw (
  take-append t.scenario_name (length t.events ∷ encode_events t.events),
  drop-append t.scenario_name (length t.events ∷ encode_events t.events),
  decode_events-encode t.events,
)

abbrev pub codec : Json
codec = record { to_string_pretty = λ t. inr (encode t); from_slice = λ s. inr (decode s) }
