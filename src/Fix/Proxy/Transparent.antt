-- ===== src/Fix/Proxy/Transparent.antt =====
-- A disabled proxy passes every byte on.
use blackswan_harness.Prelude.{
  ℕ, zero, suc, Bool, true, false, Bytes, none, some, ok, List, [], ◌∷◌, ◌++◌, append_assoc,
  append-nil, length, take, drop, take-append-drop, Outcome-cases, ◌≡◌, ◌≢◌, ◌⊎◌, refl, sym, ap,
  ◌∙◌, inl, inr,
}
use blackswan_harness.Core.Adapter.{Direction, ProtocolAdapter}
use blackswan_harness.Fix.Framing.{find_complete_message}
use blackswan_harness.Fix.Proxy.{
  ReadResult, closed, timed_out, failed, got, Sink, End, waiting, returned, died, spinning, Relay,
  decide, perform, relay_message, drain, relay,
}
use blackswan_harness.Fix.Proxy.Drain.{End-cases}

-- The bytes that the rounds read before the loop ends.
unfoldable pub received : List (Bool × ReadResult) → Bytes
received [] = []
received ((true, read) ∷ rounds) = []
received ((false, closed) ∷ rounds) = []
received ((false, failed) ∷ rounds) = []
received ((false, timed_out) ∷ rounds) = received rounds
received ((false, got chunk) ∷ rounds) = chunk ++ received rounds

-- A stream that takes every write and keeps all bytes in order.
pub record Keeps {D : Type 0} (sink : Sink D) (log : D → Bytes) : Type 0 where
  pub good : (s : Bytes) (d : D) → (sink.write_all s d).0 ≡ true
  pub kept : (s : Bytes) (d : D) → log (sink.write_all s d).1 ≡ log d ++ s

-- How a loop that has read all that it was given ends.
abbrev pub IsCalm : End → Type 0
IsCalm end = (end ≡ waiting) ⊎ (end ≡ returned)

-- Framing finds no message at the start of the buffer.
abbrev pub NoMessage : Bool → Bytes → Type 0
NoMessage checks buf = (n : ℕ) → find_complete_message checks buf ≢ ok (some n)

IsCalm-ne : ¬ IsCalm died
IsCalm-ne (inl e) = cc
IsCalm-ne (inr e) = cc

IsCalm-ne_spinning : ¬ IsCalm spinning
IsCalm-ne_spinning (inl e) = cc
IsCalm-ne_spinning (inr e) = cc

module _ {A D : Type 0} (checks : Bool) (ops : ProtocolAdapter A) (sink : Sink D) (log : D → Bytes)
    (keeps : Keeps sink log) (direction : Direction) where
  abbrev pub off : ℕ → Bool
  off n = false

  pub message-passed :
      (message : Bytes) (r : Relay A D)
      → ((relay_message checks ops sink direction off message r).0 ≡ waiting)
        × (log (relay_message checks ops sink direction off message r).1.dst ≡ log r.dst ++ message)
        × ((relay_message checks ops sink direction off message r).1.adapter ≡ r.adapter)
  unfolding relay_message decide perform
  message-passed message r = (rw (keeps.good message r.dst) refl, keeps.kept message r.dst, refl)

  drain-passed :
      (f : ℕ) (buf : Bytes) (r : Relay A D)
      → let (end, rest, r') = drain checks ops sink direction off f buf r in
        (log r'.dst ++ rest ≡ log r.dst ++ buf)
        × (end ≢ returned)
        × (end ≡ waiting → NoMessage checks rest)
  unfolding drain
  drain-passed zero buf r = (refl, λ e. cc, λ e. cc)
  drain-passed (suc f) buf r = elim (Outcome-cases (find_complete_message checks buf)) [
    | inr (inl (x, k)) ↦ rw (k, drain) (refl, λ e. cc, λ e n h. cc (k, h))
    | inr (inr k) ↦ rw (k, drain) (refl, λ e. cc, λ e. cc)
    | inl (none, k) ↦ rw (k, drain) (refl, λ e. cc, λ e n h. cc (k, h))
    | inl (some n, k) ↦
        let (w, wrote, _) = message-passed (take n buf) r in
        let sent = relay_message checks ops sink direction off (take n buf) r in
        let (kept, calm, empty) = drain-passed f (drop n buf) sent.1 in
        rw (k, drain, w)
          (
            kept
                ∙ ap (λ s. s ++ drop n buf) wrote
                ∙ append_assoc (log r.dst) (take n buf) (drop n buf)
                ∙ ap (λ s. log r.dst ++ s) (take-append-drop n buf),
            calm,
            empty,
          )
  ]

  -- A disabled relay writes what it reads, byte for byte and in order, and holds back only bytes
  -- behind the last message, in which framing finds none: what it has written, followed by what it
  -- holds, is what it has read. It is assumed that every write succeeds, that what it holds at
  -- first is no message, and that no framing panic or endless loop stops it. The adapter may do
  -- anything.
  pub relay-passes :
      (rounds : List (Bool × ReadResult)) (buf : Bytes) (r : Relay A D)
      → NoMessage checks buf
      → IsCalm (relay checks ops sink direction (λ n. false) rounds buf r).0
      → let (end, rest, r') = relay checks ops sink direction (λ n. false) rounds buf r in
        (log r'.dst ++ rest ≡ log r.dst ++ (buf ++ received rounds)) × NoMessage checks rest
  unfolding relay received
  relay-passes [] buf r idle calm = (rw append-nil refl, idle)
  relay-passes ((true, read) ∷ rounds) buf r idle calm = (rw append-nil refl, idle)
  relay-passes ((false, closed) ∷ rounds) buf r idle calm = (rw append-nil refl, idle)
  relay-passes ((false, failed) ∷ rounds) buf r idle calm = (rw append-nil refl, idle)
  relay-passes ((false, timed_out) ∷ rounds) buf r idle calm = relay-passes rounds buf r idle calm
  relay-passes ((false, got chunk) ∷ rounds) buf r idle calm =
      let filled = buf ++ chunk in
      let (end, rest, r') =
        drain checks ops sink direction (λ n. false) (suc (length filled)) filled r in
      let (kept, busy, empty) = drain-passed (suc (length filled)) filled r in
      elim (End-cases end) [
        | inl w ↦
            let (later, none_left) =
              relay-passes rounds rest r' (empty w) (rw (w, relay) at calm) in
            rw (w, relay)
              (
                later
                    ∙ sym (append_assoc (log r'.dst) rest (received rounds))
                    ∙ ap (λ s. s ++ received rounds) kept
                    ∙ append_assoc (log r.dst) filled (received rounds)
                    ∙ ap (λ s. log r.dst ++ s) (append_assoc buf chunk (received rounds)),
                none_left,
              )
        | inr (inl w) ↦ absurd (busy w)
        | inr (inr (inl w)) ↦ absurd (IsCalm-ne (rw (w, relay) at calm))
        | inr (inr (inr w)) ↦ absurd (IsCalm-ne_spinning (rw (w, relay) at calm))
      ]
