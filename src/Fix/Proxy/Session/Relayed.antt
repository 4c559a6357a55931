-- ===== src/Fix/Proxy/Session/Relayed.antt =====
-- The relay as a function, by the steps of its thread.
use blackswan_harness.Prelude.{
  ℕ, zero, suc, Bool, true, false, Bytes, none, some, Option-cases, Bool-cases, take, drop, length,
  ok, err, Outcome-cases, List, [], ◌∷◌, ◌++◌, ◌≡◌, ◌≢◌, ◌⊎◌, refl, inl, inr,
}
use blackswan_harness.Core.Adapter.{
  InterceptAction, forward, discard, mutate, delay, Direction, ProtocolAdapter,
}
use blackswan_harness.Fix.Message.{ParseError}
use blackswan_harness.Fix.Framing.{find_complete_message}
use blackswan_harness.Fix.Proxy.{
  ReadResult, closed, timed_out, failed, got, Sink, End, waiting, spinning, Relay, decide, perform,
  relay_message, drain, relay, unwrap_or_forward,
}
use blackswan_harness.Fix.Proxy.Drain.{End-cases}
use blackswan_harness.Fix.Proxy.Session.{
  Half, opened, woken, handled, Move, reads, handles, panics, Moves, still, then_moves,
}

module _ {A D : Type 0} (checks : Bool) (ops : ProtocolAdapter A) (sink : Sink D) (d : Direction)
    (enabled : ℕ → Bool) where
  -- The half of a relay that has come to this.
  abbrev half : End × Bytes × Relay A D → Half D
  half (end, buf, r) = record { buf = buf; dst = r.dst; end = end }

  perform-loads :
      (on : Bool) (action : InterceptAction) (message : Bytes) (dst : D)
      → perform checks ops sink d enabled action message dst
        ≡ perform checks ops sink d (λ n. on) action message dst
  unfolding perform
  perform-loads on forward message dst = refl
  perform-loads on discard message dst = refl
  perform-loads on (mutate bytes) message dst = refl
  perform-loads on (delay ns) message dst = refl

  -- A message is handled in the same way whatever number the load has, as long as it finds the same.
  relay_message-handled :
      (message : Bytes) (r : Relay A D)
      → let found = relay_message checks ops sink d enabled message r in
        let alone =
          relay_message checks ops sink d
            (λ n. enabled r.loads)
            message
            (record { adapter = r.adapter; dst = r.dst; loads = 0 }) in
        (found.0 ≡ alone.0) × (found.1.adapter ≡ alone.1.adapter) × (found.1.dst ≡ alone.1.dst)
  unfolding relay_message decide
  relay_message-handled message r = elim (Bool-cases (enabled r.loads)) [
    | inr off ↦
        rw (off, relay_message, decide, off, perform-loads false forward message r.dst)
          (refl, refl, refl)
    | inl on ↦
        let answer = (ops.intercept (record { bytes = message; direction = d }) r.adapter).0 in
        elim (Option-cases (unwrap_or_forward answer)) [
          | inl e ↦ rw (on, relay_message, decide, e, decide, on) (refl, refl, refl)
          | inr (action, e) ↦
              rw (on, relay_message, decide, e, decide, on, perform-loads true action message r.dst)
                (refl, refl, refl)
        ]
  ]

  abbrev NoMessage : Bytes → Type 0
  NoMessage buf =
      (find_complete_message checks buf ≡ ok none)
      ⊎ ((e : ParseError) × (find_complete_message checks buf ≡ err e))

  Moves-append :
      {a : A} {h : Half D} {a' : A} {h' : Half D} {a'' : A} {h'' : Half D}
      → Moves checks ops sink d a h a' h'
      → Moves checks ops sink d a' h' a'' h''
      → Moves checks ops sink d a h a'' h''
  Moves-append first still = first
  Moves-append first (then_moves rest move) = then_moves (Moves-append first rest) move

  message-Move :
      (n : ℕ) (buf : Bytes) (r : Relay A D)
      → find_complete_message checks buf ≡ ok (some n)
      → let sent = relay_message checks ops sink d enabled (take n buf) r in
        Move checks ops sink d r.adapter
          (half (waiting, buf, r))
          sent.1.adapter
          (half (sent.0, drop n buf, sent.1))
  unfolding handled
  message-Move n buf r k =
      let (ended, left, wrote) = relay_message-handled (take n buf) r in
      rw (ended, left, wrote) (handles (enabled r.loads) n refl k)

  drain-Moves :
      (f : ℕ) (buf : Bytes) (r : Relay A D)
      → (drain checks ops sink d enabled f buf r).0 ≢ spinning
      → let drained = drain checks ops sink d enabled f buf r in
        Moves checks ops sink d r.adapter (half (waiting, buf, r)) drained.2.adapter (half drained)
        × (drained.0 ≡ waiting → NoMessage drained.1)
  unfolding drain
  drain-Moves zero buf r ends = absurd (ends refl)
  drain-Moves (suc f) buf r ends = elim (Outcome-cases (find_complete_message checks buf)) [
    | inr (inl (x, k)) ↦ rw (k, drain) (still, λ h. inr (x, k))
    | inr (inr k) ↦ rw (k, drain) (then_moves still (panics refl k), λ h. cc)
    | inl (none, k) ↦ rw (k, drain) (still, λ h. inl k)
    | inl (some n, k) ↦
        let sent = relay_message checks ops sink d enabled (take n buf) r in
        let one = then_moves still (message-Move n buf r k) in
        elim (End-cases sent.0) [
          | inl w ↦
              let (rest, idle) = drain-Moves f (drop n buf) sent.1 (rw (k, drain, w) at ends) in
              rw (k, drain, w) (Moves-append (rw w at one) rest, idle)
          | inr (inl w) ↦ rw (k, drain, w) (rw w at one, λ h. cc)
          | inr (inr (inl w)) ↦ rw (k, drain, w) (rw w at one, λ h. cc)
          | inr (inr (inr w)) ↦ rw (k, drain, w) (rw w at one, λ h. cc)
        ]
  ]

  relay-Moves :
      (rounds : List (Bool × ReadResult)) (buf : Bytes) (r : Relay A D)
      → NoMessage buf
      → (relay checks ops sink d enabled rounds buf r).0 ≢ spinning
      → let run = relay checks ops sink d enabled rounds buf r in
        Moves checks ops sink d r.adapter (half (waiting, buf, r)) run.2.adapter (half run)
  unfolding relay woken
  relay-Moves [] buf r idle ends = still
  relay-Moves ((true, read) ∷ rounds) buf r idle ends =
      then_moves still (reads (true, read) refl idle)
  relay-Moves ((false, closed) ∷ rounds) buf r idle ends =
      then_moves still (reads (false, closed) refl idle)
  relay-Moves ((false, failed) ∷ rounds) buf r idle ends =
      then_moves still (reads (false, failed) refl idle)
  relay-Moves ((false, timed_out) ∷ rounds) buf r idle ends = relay-Moves rounds buf r idle ends
  relay-Moves ((false, got chunk) ∷ rounds) buf r idle ends =
      let filled = buf ++ chunk in
      let drained = drain checks ops sink d enabled (suc (length filled)) filled r in
      let woke : Moves checks ops sink d r.adapter (half (waiting, buf, r)) r.adapter
          (half (waiting, filled, r)) =
        then_moves still (reads (false, got chunk) refl idle) in
      elim (End-cases drained.0) [
        | inl w ↦
            let (moves, rest) = drain-Moves (suc (length filled)) filled r (rw w (λ h. cc)) in
            let later = relay-Moves rounds drained.1 drained.2 (rest w) (rw (w, relay) at ends) in
            rw (w, relay) (Moves-append (Moves-append woke (rw w at moves)) later)
        | inr (inl w) ↦
            let (moves, _) = drain-Moves (suc (length filled)) filled r (rw w (λ h. cc)) in
            rw (w, relay) (Moves-append woke (rw w at moves))
        | inr (inr (inl w)) ↦
            let (moves, _) = drain-Moves (suc (length filled)) filled r (rw w (λ h. cc)) in
            rw (w, relay) (Moves-append woke (rw w at moves))
        | inr (inr (inr w)) ↦ absurd (ends (rw (w, relay)))
      ]

-- What the function for one relay computes, if it is no endless loop, is reached by steps of its
-- thread alone: from a thread that has just been opened, whatever its loads of `shutdown` and of
-- `enabled` and its reads find, to the same adapter, buffer, stream and end.
pub relayed :
    {A D : Type 0} (checks : Bool) (ops : ProtocolAdapter A) (sink : Sink D) (d : Direction)
    (enabled : ℕ → Bool) (rounds : List (Bool × ReadResult)) (a : A) (dst : D)
    → (relay checks ops sink d enabled rounds [] (record { adapter = a; dst = dst; loads = 0 })).0
      ≢ spinning
    → let (end, rest, r) =
        relay checks ops sink d enabled rounds [] (record { adapter = a; dst = dst; loads = 0 }) in
      Moves checks ops sink d a
        (opened dst)
        r.adapter
        (record { buf = rest; dst = r.dst; end = end })
unfolding opened find_complete_message
relayed checks ops sink d enabled rounds a dst ends =
    relay-Moves checks ops sink d enabled rounds [] (record { adapter = a; dst = dst; loads = 0 })
      (inl refl) ends
