-- ===== src/Fix/Proxy/Drain.antt =====
-- In a build with overflow checks the loop over the buffer ends, and how the bytes arrive in reads
-- does not matter.
use blackswan_harness.Prelude.{
  ℕ, zero, suc, ◌<◌, Bool, true, false, Bool-cases, Bytes, none, some, Option-cases, List, [], ◌∷◌,
  ◌++◌, length, length-append, length-drop, take, drop, take-append_le, drop-append_le,
  Outcome-cases, ◌≡◌, ◌≢◌, ◌⊎◌, refl, sym, ap, ◌∙◌, inl, inr, arith, append_assoc,
}
use blackswan_harness.Core.Adapter.{Direction, ProtocolAdapter}
use blackswan_harness.Fix.Framing.{find_complete_message}
use blackswan_harness.Fix.Framing.Stable.{find_complete_message-append}
use blackswan_harness.Fix.Framing.Bounds.{find_complete_message-bounds}
use blackswan_harness.Fix.Proxy.{
  ReadResult, closed, timed_out, failed, got, Sink, End, waiting, returned, died, spinning, Relay,
  decide, perform, relay_message, drain, relay,
}

pub End-cases : (e : End) → (e ≡ waiting) ⊎ (e ≡ returned) ⊎ (e ≡ died) ⊎ (e ≡ spinning)
End-cases waiting = inl refl
End-cases returned = inr (inl refl)
End-cases died = inr (inr (inl refl))
End-cases spinning = inr (inr (inr refl))

module _ {A D : Type 0} (ops : ProtocolAdapter A) (sink : Sink D) (direction : Direction)
    (enabled : ℕ → Bool) where
  -- Any amount of fuel above the buffer's length gives the same.
  drain-enough :
      (f g : ℕ) (buf : Bytes) (r : Relay A D)
      → length buf < f
      → length buf < g
      → drain true ops sink direction enabled f buf r
        ≡ drain true ops sink direction enabled g buf r
  unfolding drain
  drain-enough zero g buf r hf hg = absurd (omega arith)
  drain-enough (suc f) zero buf r hf hg = absurd (omega arith)
  drain-enough (suc f) (suc g) buf r hf hg = elim (Outcome-cases (find_complete_message true buf)) [
    | inr (inl (_, e)) ↦ rw (e, drain) refl
    | inr (inr e) ↦ rw (e, drain) refl
    | inl (none, e) ↦ rw (e, drain) refl
    | inl (some n, e) ↦
        let sent = relay_message true ops sink direction enabled (take n buf) r in
        let (large, within) = find_complete_message-bounds buf n e in
        let less : length (drop n buf) < f = omega (arith, length-drop n buf) in
        let less' : length (drop n buf) < g = omega (arith, length-drop n buf) in
        elim (End-cases sent.0) [
          | inl w ↦ rw (e, drain, w) (drain-enough f g (drop n buf) sent.1 less less')
          | inr (inl w) ↦ rw (e, drain, w) refl
          | inr (inr (inl w)) ↦ rw (e, drain, w) refl
          | inr (inr (inr w)) ↦ rw (e, drain, w) refl
        ]
  ]

  relay_message-ends :
      (message : Bytes) (r : Relay A D)
      → (relay_message true ops sink direction enabled message r).0 ≢ spinning
  unfolding relay_message
  relay_message-ends message r e =
      elim (Option-cases (decide true ops sink direction enabled message r).0) [
        | inl none_yet ↦ cc (rw (none_yet, relay_message) at e)
        | inr (action, found) ↦
            elim (Bool-cases
              (perform true ops sink direction enabled action message
                (decide true ops sink direction enabled message r).1.dst).0) [
                  | inl good ↦ cc (rw (found, good, relay_message) at e)
                  | inr bad ↦ cc (rw (found, bad, relay_message) at e)
                ]
      ]

  drain-ends :
      (f : ℕ) (buf : Bytes) (r : Relay A D)
      → length buf < f
      → (drain true ops sink direction enabled f buf r).0 ≢ spinning
  unfolding drain
  drain-ends zero buf r h e = absurd (omega arith)
  drain-ends (suc f) buf r h e = elim (Outcome-cases (find_complete_message true buf)) [
    | inr (inl (_, k)) ↦ cc (rw (k, drain) at e)
    | inr (inr k) ↦ cc (rw (k, drain) at e)
    | inl (none, k) ↦ cc (rw (k, drain) at e)
    | inl (some n, k) ↦
        let sent = relay_message true ops sink direction enabled (take n buf) r in
        let (large, within) = find_complete_message-bounds buf n k in
        let less : length (drop n buf) < f = omega (arith, length-drop n buf) in
        elim (End-cases sent.0) [
          | inl w ↦ drain-ends f (drop n buf) sent.1 less (rw (k, w, drain) at e)
          | inr (inl w) ↦ cc (rw (k, w, drain) at e)
          | inr (inr (inl w)) ↦ cc (rw (k, w, drain) at e)
          | inr (inr (inr w)) ↦ relay_message-ends (take n buf) r w
        ]
  ]

  -- With overflow checks no round of the relay goes on for ever: whatever arrives, it waits for more
  -- bytes, returns or panics.
  pub relay-ends :
      (rounds : List (Bool × ReadResult)) (buf : Bytes) (r : Relay A D)
      → (relay true ops sink direction enabled rounds buf r).0 ≢ spinning
  unfolding relay
  relay-ends [] buf r e = cc
  relay-ends ((true, read) ∷ rounds) buf r e = cc
  relay-ends ((false, closed) ∷ rounds) buf r e = cc
  relay-ends ((false, failed) ∷ rounds) buf r e = cc
  relay-ends ((false, timed_out) ∷ rounds) buf r e = relay-ends rounds buf r e
  relay-ends ((false, got chunk) ∷ rounds) buf r e =
      let filled = buf ++ chunk in
      let (end, rest, r') = drain true ops sink direction enabled (suc (length filled)) filled r in
      elim (End-cases end) [
        | inl w ↦ relay-ends rounds rest r' (rw (w, relay) at e)
        | inr (inl w) ↦ cc (rw (w, relay) at e)
        | inr (inr (inl w)) ↦ cc (rw (w, relay) at e)
        | inr (inr (inr w)) ↦ drain-ends (suc (length filled)) filled r (omega arith) w
      ]

  -- Bytes behind a buffer on which the loop has stopped are looked at from where it stopped.
  drain-append :
      (f : ℕ) (buf more rest : Bytes) (r r' : Relay A D)
      → length buf < f
      → drain true ops sink direction enabled f buf r ≡ (waiting, rest, r')
      → (g h : ℕ) → length (buf ++ more) < g
      → length (rest ++ more) < h
      → drain true ops sink direction enabled g (buf ++ more) r
        ≡ drain true ops sink direction enabled h (rest ++ more) r'
  unfolding drain
  drain-append zero buf more rest r r' small e g h hg hh = absurd (omega arith)
  drain-append (suc f) buf more rest r r' small e zero h hg hh = absurd (omega arith)
  drain-append (suc f) buf more rest r r' small e (suc g) h hg hh =
      elim (Outcome-cases (find_complete_message true buf)) [
        | inr (inl (_, k)) ↦ stopped (rw (k, drain) at e)
        | inr (inr k) ↦ cc (rw (k, drain) at e)
        | inl (none, k) ↦ stopped (rw (k, drain) at e)
        | inl (some n, k) ↦
            let sent = relay_message true ops sink direction enabled (take n buf) r in
            let (large, within) = find_complete_message-bounds buf n k in
            let k' = find_complete_message-append true buf more (rw k tt) ∙ k in
            let less : length (drop n buf) < f = omega (arith, length-drop n buf) in
            let less' : length (drop n buf ++ more) < g =
              omega (
                arith,
                length-drop n buf,
                length-append (drop n buf) more,
                length-append buf more,
              ) in
            elim (End-cases sent.0) [
              | inl w ↦
                  rw
                    (
                      k',
                      drain,
                      take-append_le n buf more within,
                      w,
                      take-append_le n buf more within,
                      drop-append_le n buf more within,
                    )
                    (drain-append f (drop n buf) more rest sent.1 r' less (rw (k, drain, w) at e) g
                      h less' hh)
              | inr (inl w) ↦ cc (rw (k, drain, w) at e)
              | inr (inr (inl w)) ↦ cc (rw (k, drain, w) at e)
              | inr (inr (inr w)) ↦ cc (rw (k, drain, w) at e)
            ]
      ]
    where
      stopped :
          ◌≡◌ {A = End × Bytes × Relay A D} (waiting, buf, r) (waiting, rest, r')
          → drain true ops sink direction enabled (suc g) (buf ++ more) r
            ≡ drain true ops sink direction enabled h (rest ++ more) r'
      stopped same =
          let eb : buf ≡ rest = ap (λ p. let (_, b, _) = p in b) same in
          let er : r ≡ r' = ap (λ p. let (_, _, s) = p in s) same in
          rw (← eb, ← er) (drain-enough (suc g) h (buf ++ more) r hg (rw eb hh))

  -- A read does what the loop over the buffer does.
  relay-same :
      (chunk chunk' : Bytes) (rounds : List (Bool × ReadResult)) (buf buf' : Bytes)
      (r r' : Relay A D)
      → drain true ops sink direction enabled (suc (length (buf ++ chunk))) (buf ++ chunk) r
        ≡ drain true ops sink direction enabled (suc (length (buf' ++ chunk'))) (buf' ++ chunk') r'
      → relay true ops sink direction enabled ((false, got chunk) ∷ rounds) buf r
        ≡ relay true ops sink direction enabled ((false, got chunk') ∷ rounds) buf' r'
  unfolding relay
  relay-same chunk chunk' rounds buf buf' r r' e =
      ap
        (λ (p : End × Bytes × Relay A D). elim p.0 as (λ x. End × Bytes × Relay A D) [
          | waiting ↦ relay true ops sink direction enabled rounds p.1 p.2
          | returned ↦ (returned, p.1, p.2)
          | died ↦ (died, p.1, p.2)
          | spinning ↦ (spinning, p.1, p.2)
        ])
        e

  -- With overflow checks, two reads do what one read of all their bytes does, if the loop over the
  -- first ones ends by waiting for more: what a chunk boundary cuts changes neither the messages, nor
  -- what the adapter is asked, nor what is written.
  pub relay-chunks :
      (s t : Bytes) (rounds : List (Bool × ReadResult)) (buf : Bytes) (r : Relay A D)
      → (relay true ops sink direction enabled ((false, got s) ∷ []) buf r).0 ≡ waiting
      → relay true ops sink direction enabled ((false, got s) ∷ (false, got t) ∷ rounds) buf r
        ≡ relay true ops sink direction enabled ((false, got (s ++ t)) ∷ rounds) buf r
  unfolding relay
  relay-chunks s t rounds buf r h =
      let filled = buf ++ s in
      let (end, rest, r') = drain true ops sink direction enabled (suc (length filled)) filled r in
      let whole = λ (w : end ≡ waiting).
        ap (λ b. drain true ops sink direction enabled (suc (length b)) b r)
          (sym (append_assoc buf s t))
        ∙ drain-append (suc (length filled)) filled t rest r r' (omega arith)
            (ap (λ e. (e, rest, r')) w) (suc (length (filled ++ t))) (suc (length (rest ++ t)))
            (omega arith) (omega arith) in
      elim (End-cases end) [
        | inl w ↦ rw (w, relay) (relay-same t (s ++ t) rounds rest buf r' r (sym (whole w)))
        | inr (inl w) ↦ cc (rw (w, relay) at h)
        | inr (inr (inl w)) ↦ cc (rw (w, relay) at h)
        | inr (inr (inr w)) ↦ cc (rw (w, relay) at h)
      ]
