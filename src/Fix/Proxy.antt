-- ===== src/Fix/Proxy.antt =====
-- crates/adapters/src/fix/proxy.rs: one direction of a session. A run is given by what the relay's
-- calls see: the values that its loads of `shutdown` and of `enabled` find, which other threads
-- store, and what each `read` returns. The socket that it writes to is a parameter.
pub mod Drain
pub mod Transparent
pub mod Spin
pub mod Session
pub mod Messages
pub mod Delivered
mod Tests
use blackswan_harness.Prelude.{
  ℕ, zero, suc, ◌+◌, Bool, true, false, if◌then◌else◌, Bytes, Option, none, some, length, take,
  drop, Outcome, ok, err, panic, List, [], ◌∷◌, ◌++◌,
}
use blackswan_harness.Core.Error.{HarnessError}
use blackswan_harness.Core.Adapter.{
  Direction, RawMessage, InterceptAction, forward, discard, mutate, delay, ProtocolAdapter,
}
use blackswan_harness.Fix.Framing.{find_complete_message}

-- What `TcpStream::read` returns; `timed_out` is `WouldBlock` or `TimedOut`.
pub data ReadResult : Type 0 where
  closed timed_out failed : ReadResult
  got : Bytes → ReadResult

-- The stream written to: `write_all` tells whether it succeeds. A sleep lasts so many nanoseconds.
pub record Sink (D : Type 0) : Type 0 where
  pub write_all : Bytes → D → Bool × D
  pub sleep : ℕ → D → D

-- How a part of the relay ends: it wants more bytes, it has returned, it has panicked, or it never
-- ends.
pub data End : Type 0 where
  waiting returned died spinning : End

-- The adapter's state, the stream, and the number of loads of `enabled` so far.
pub record Relay (A D : Type 0) : Type 0 where
  pub adapter : A
  pub dst : D
  pub loads : ℕ

-- `unwrap_or(InterceptAction::Forward)`; none where the call has panicked.
unfoldable pub unwrap_or_forward : Outcome HarnessError InterceptAction → Option InterceptAction
unwrap_or_forward (ok action) = some action
unwrap_or_forward (err e) = some forward
unwrap_or_forward panic = none

module _ {A D : Type 0} (checks : Bool) (ops : ProtocolAdapter A) (sink : Sink D)
    (direction : Direction) (enabled : ℕ → Bool) where
  -- What is done with a message, and the adapter's next state; none where the adapter panics.
  unfoldable pub decide : Bytes → Relay A D → Option InterceptAction × Relay A D
  decide message r =
      let loaded = record r { loads = r.loads + 1 } in
      let (answer, a) =
        ops.intercept (record { bytes = message; direction = direction }) r.adapter in
      if enabled r.loads
      then (unwrap_or_forward answer, record loaded { adapter = a })
      else (some forward, loaded)

  -- The `match action`: whether the relay goes on, and the stream.
  unfoldable pub perform : InterceptAction → Bytes → D → Bool × D
  perform forward message d = sink.write_all message d
  perform discard message d = (true, d)
  perform (mutate bytes) message d = sink.write_all bytes d
  perform (delay ns) message d = sink.write_all message (sink.sleep ns d)

  -- One message, up to the next test of the loop.
  unfoldable pub relay_message : Bytes → Relay A D → End × Relay A D
  relay_message message r =
      let (action, decided) = decide message r in
      elim action [
        | none ↦ (died, decided)
        | some action ↦
            let (good, d) = perform action message decided.dst in
            (if good then waiting else returned, record decided { dst = d })
      ]

  -- The `while let` loop over the buffer.
  unfoldable pub drain : ℕ → Bytes → Relay A D → End × Bytes × Relay A D
  drain zero buf r = (spinning, buf, r)
  drain (suc fuel) buf r = elim (find_complete_message checks buf) [
    | err e ↦ (waiting, buf, r)
    | panic ↦ (died, buf, r)
    | ok found ↦ elim found [
      | none ↦ (waiting, buf, r)
      | some len ↦
          let (end, r') = relay_message (take len buf) r in
          elim end [
            | waiting ↦ drain fuel (drop len buf) r'
            | returned ↦ (returned, drop len buf, r')
            | died ↦ (died, drop len buf, r')
            | spinning ↦ (spinning, drop len buf, r')
          ]
    ]
  ]

  -- The outer loop, over what each round's load of `shutdown` and its read see.
  unfoldable pub relay : List (Bool × ReadResult) → Bytes → Relay A D → End × Bytes × Relay A D
  relay [] buf r = (waiting, buf, r)
  relay ((true, read) ∷ rounds) buf r = (returned, buf, r)
  relay ((false, closed) ∷ rounds) buf r = (returned, buf, r)
  relay ((false, failed) ∷ rounds) buf r = (returned, buf, r)
  relay ((false, timed_out) ∷ rounds) buf r = relay rounds buf r
  relay ((false, got chunk) ∷ rounds) buf r =
      let filled = buf ++ chunk in
      let (end, rest, r') = drain (suc (length filled)) filled r in
      elim end [
        | waiting ↦ relay rounds rest r'
        | returned ↦ (returned, rest, r')
        | died ↦ (died, rest, r')
        | spinning ↦ (spinning, rest, r')
      ]
