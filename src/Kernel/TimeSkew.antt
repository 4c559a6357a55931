-- ===== src/Kernel/TimeSkew.antt =====
-- crates/kernel/src/time_skew.rs: a supervised child in a time namespace of its own. Processes belong
-- to the host, which is a parameter.
pub mod Lifecycle
use blackswan_harness.Prelude.{
  ℕ, suc, Bool, true, false, Bytes, Text, codes, ◌++◌, Option, none, some, Outcome, ok, err, panic,
  List, [], ◌∷◌,
}
use blackswan_harness.Prelude.Decimal.{to_string}
use blackswan_harness.Core.Error.{HarnessError, arm_failed, disarm_failed}
use blackswan_harness.Core.Fault.{FaultContext, FaultInjector}

-- An `i64` and its `Display`.
pub data ℤ : Type 0 where
  pos negsuc : ℕ → ℤ

pub show_integer : ℤ → Text
show_integer (pos n) = to_string n
show_integer (negsuc n) = codes "-" ++ to_string (suc n)

-- A command: the program, its arguments, the text that it writes to `timens_offsets` between fork and
-- exec, and whether its output is piped.
pub record Spawn : Type 0 where
  pub program : Text
  pub args : List Text
  pub offsets : Text
  pub piped : Bool

-- What is asked of the host, on children of type `P`: `spawn` (with the closure that runs before
-- exec, whose failure is one of the spawn), `try_wait`, which may find an exit status, `kill`, and
-- `wait`, whose result is thrown away. An error is its text.
pub record Processes (W P : Type 0) : Type 0 where
  pub spawn : Spawn → W → Outcome Text P × W
  pub try_wait : P → W → Outcome Text (Option ℕ) × W
  pub kill : P → W → Outcome Text (Unit {0}) × W
  pub wait : P → W → W

pub record TimeSkewInjector (P : Type 0) : Type 0 where
  pub id : Text
  pub argv : List Text
  pub monotonic_offset_secs : ℤ
  pub boottime_offset_secs : ℤ
  pub capture_stdout : Bool
  pub child : Option P

unfoldable pub new : {P : Type 0} → Text → List Text → ℤ → ℤ → TimeSkewInjector P
new id argv monotonic_offset_secs boottime_offset_secs = record {
  id = id;
  argv = argv;
  monotonic_offset_secs = monotonic_offset_secs;
  boottime_offset_secs = boottime_offset_secs;
  capture_stdout = false;
  child = none;
}

unfoldable pub with_captured_stdout : {P : Type 0} → TimeSkewInjector P → TimeSkewInjector P
with_captured_stdout i = record i { capture_stdout = true }

-- What is asked of a child alone, with handles of type `O` on its output: its pid, and the handle,
-- which can be taken once.
pub record Child (P O : Type 0) : Type 0 where
  pub id : P → ℕ
  pub take_stdout : P → Option O × P

pub pid : {P O : Type 0} → Child P O → TimeSkewInjector P → Option ℕ
pid child i = elim i.child [ none ↦ none | some c ↦ some (child.id c) ]

pub take_stdout : {P O : Type 0} → Child P O → TimeSkewInjector P → Option O × TimeSkewInjector P
take_stdout child i = elim i.child [
  | none ↦ (none, i)
  | some c ↦ let (handle, c') = child.take_stdout c in (handle, record i { child = some c' })
]

abbrev newline : ℕ
newline = 10

-- `format!("monotonic {} 0\nboottime {} 0\n", …)`.
pub offsets_buf : ℤ → ℤ → Text
offsets_buf monotonic boottime =
    codes "monotonic "
    ++ (show_integer monotonic
        ++ (codes " 0"
            ++ newline
              ∷ (codes "boottime " ++ (show_integer boottime ++ (codes " 0" ++ newline ∷ [])))))

module _ {W P : Type 0} (host : Processes W P) where
  unfoldable pub arm :
      FaultContext
      → TimeSkewInjector P
      → W
      → Outcome HarnessError (Unit {0}) × TimeSkewInjector P × W
  arm ctx i w = elim i.child [
    | some _ ↦ (ok tt, i, w)
    | none ↦ elim i.argv [
      | [] ↦ (err (arm_failed i.id (codes "argv is empty, nothing to launch")), i, w)
      | program ∷ args ↦
          let (r, w') =
            host.spawn
              (record {
                program = program;
                args = args;
                offsets = offsets_buf i.monotonic_offset_secs i.boottime_offset_secs;
                piped = i.capture_stdout;
              })
              w in
          elim r [
            | ok child ↦ (ok tt, record i { child = some child }, w')
            | err e ↦ (err (arm_failed i.id (codes "spawning skewed process: " ++ e)), i, w')
            | panic ↦ (panic, i, w')
          ]
    ]
  ]

  -- `kill` and `wait`.
  pub kill_child : Text → P → W → Outcome HarnessError (Unit {0}) × W
  kill_child id child w =
      let (killed, w') = host.kill child w in
      elim killed [
        | ok _ ↦ (ok tt, host.wait child w')
        | err e ↦ (err (disarm_failed id (codes "killing skewed process: " ++ e)), w')
        | panic ↦ (panic, w')
      ]

  -- Ending a child that `take` has taken out of the injector. One that has ended by itself is left.
  pub end_child : Text → P → W → Outcome HarnessError (Unit {0}) × W
  end_child id child w =
      let (status, w') = host.try_wait child w in
      elim status [
        | ok found ↦ elim found [ none ↦ kill_child id child w' | some _ ↦ (ok tt, w') ]
        | err e ↦ kill_child id child w'
        | panic ↦ (panic, w')
      ]

  pub disarm : TimeSkewInjector P → W → Outcome HarnessError (Unit {0}) × TimeSkewInjector P × W
  disarm i w = elim i.child [
    | none ↦ (ok tt, i, w)
    | some child ↦ let (r, w') = end_child i.id child w in (r, record i { child = none }, w')
  ]

  unfoldable pub is_armed : TimeSkewInjector P → Bool
  is_armed i = elim i.child [ none ↦ false | some _ ↦ true ]

  unfoldable pub time_skew_injector : FaultInjector W (TimeSkewInjector P)
  time_skew_injector = record { id = λ i. i.id; arm = arm; disarm = disarm; is_armed = is_armed }
