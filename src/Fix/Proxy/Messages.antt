-- ===== src/Fix/Proxy/Messages.antt =====
-- The relay on a stream of framed messages, however it is cut into reads.
use blackswan_harness.Prelude.{
  ℕ, zero, suc, ok, ◌≤◌, ◌<◌, Bool, true, false, ltb, ltb→lt, ltb-false, Bool-cases, Bytes, none,
  List, [], ◌∷◌, ◌++◌, append_assoc, append-nil, length, length-append, take, drop, take-append,
  drop-append, take-append-drop, take-append_le, drop-append_le, All, ◌≡◌, refl, sym, ap, subst,
  ◌∙◌, inl, inr, arith,
}
use blackswan_harness.Core.Adapter.{Direction, ProtocolAdapter}
use blackswan_harness.Fix.Framing.{find_complete_message}
use blackswan_harness.Fix.Framing.Bounds.{find_complete_message-bounds}
use blackswan_harness.Fix.Framing.Whole.{IsFramed, framed-prefix, framed-append}
use blackswan_harness.Fix.Proxy.{
  ReadResult, closed, timed_out, failed, got, Sink, End, waiting, returned, died, spinning, Relay,
  relay_message, drain, relay,
}
use blackswan_harness.Fix.Proxy.Drain.{End-cases}
use blackswan_harness.Fix.Proxy.Transparent.{received, IsCalm}

unfoldable pub concat : List Bytes → Bytes
concat [] = []
concat (m ∷ ms) = m ++ concat ms

-- The buffer ends inside of the first message.
abbrev IsOpen : Bytes → List Bytes → Type 0
IsOpen buf [] = Unit
IsOpen buf (m ∷ ms) = length buf < length m

nil_left : (s t : Bytes) → s ++ t ≡ [] → s ≡ []
nil_left [] t h = refl
nil_left (b ∷ s) t h = cc

wants_more : (checks : Bool) (buf : Bytes) → buf ≡ [] → find_complete_message checks buf ≡ ok none
unfolding find_complete_message
wants_more checks [] e = refl
wants_more checks (b ∷ buf) e = cc

-- Two ways to cut one text, by the shorter beginning.
cut_behind :
    (m s buf t : Bytes)
    → buf ++ t ≡ m ++ s
    → length m ≤ length buf
    → (take (length m) buf ≡ m) × (drop (length m) buf ++ t ≡ s)
cut_behind m s buf t h le =
    let front : take (length m) buf ≡ m =
      sym (take-append_le (length m) buf t le) ∙ ap (take (length m)) h ∙ take-append m s in
    (front, sym (drop-append_le (length m) buf t le) ∙ ap (drop (length m)) h ∙ drop-append m s)

cut_inside :
    (m s buf t : Bytes) → buf ++ t ≡ m ++ s → length buf ≤ length m → m ≡ buf ++ drop (length buf) m
cut_inside m s buf t h le =
    let front : take (length buf) m ≡ buf =
      sym (take-append_le (length buf) m s le)
      ∙ ap (take (length buf)) (sym h)
      ∙ take-append buf t in
    sym (take-append-drop (length buf) m) ∙ ap (λ x. x ++ drop (length buf) m) front

module _ {A D : Type 0} (checks : Bool) (ops : ProtocolAdapter A) (sink : Sink D)
    (direction : Direction) (enabled : ℕ → Bool) where
  -- The messages one by one, up to the first behind which the relay does not go on.
  unfoldable pub relay_each : List Bytes → Relay A D → End × Relay A D
  relay_each [] r = (waiting, r)
  relay_each (m ∷ ms) r =
      let (end, r') = relay_message checks ops sink direction enabled m r in
      let rest = relay_each ms r' in
      elim end [
        | waiting ↦ rest
        | returned ↦ (returned, r')
        | died ↦ (died, r')
        | spinning ↦ (spinning, r')
      ]

  relay_each-first :
      (m : Bytes) (ms : List Bytes) (r : Relay A D)
      → (relay_each (m ∷ ms) r).0 ≡ waiting
      → let (end, r') = relay_message checks ops sink direction enabled m r in
        (end ≡ waiting) × (relay_each (m ∷ ms) r ≡ relay_each ms r')
  unfolding relay_each
  relay_each-first m ms r h =
      elim (End-cases (relay_message checks ops sink direction enabled m r).0) [
        | inl w ↦ (w, rw (w, relay_each) refl)
        | inr (inl w) ↦ cc (rw (w, relay_each) at h)
        | inr (inr (inl w)) ↦ cc (rw (w, relay_each) at h)
        | inr (inr (inr w)) ↦ cc (rw (w, relay_each) at h)
      ]

  -- The loop over a buffer that begins the messages `ms`, of which `more` is still to come: it waits,
  -- with the messages that it has not seen whole left.
  record Drained (ms : List Bytes) (more : Bytes) (r : Relay A D) (end : End) (rest : Bytes)
      (r' : Relay A D) : Type 0 where
    left : List Bytes
    waits : end ≡ waiting
    framed : All IsFramed left
    continues : rest ++ more ≡ concat left
    same : relay_each left r' ≡ relay_each ms r
    inside : IsOpen rest left

  drain-Drained :
      (f : ℕ) (ms : List Bytes) (buf more : Bytes) (r : Relay A D)
      → length buf < f
      → All IsFramed ms
      → buf ++ more ≡ concat ms
      → (relay_each ms r).0 ≡ waiting
      → let (end, rest, r') = drain checks ops sink direction enabled f buf r in
        Drained ms more r end rest r'
  unfolding drain concat
  drain-Drained zero ms buf more r small framed whole h = absurd (omega arith)
  drain-Drained (suc f) [] buf more r small framed whole h =
      rw (wants_more checks buf (nil_left buf more whole), drain)
        (record {
          left = [];
          waits = refl;
          framed = tt;
          continues = whole;
          same = refl;
          inside = tt;
        })
  drain-Drained (suc f) (m ∷ ms) buf more r small (first, framed) whole h =
      elim (Bool-cases (ltb (length buf) (length m))) [
        | inl part ↦
            let less = ltb→lt _ _ part in
            let cut = cut_inside m (concat ms) buf more whole (omega (arith, less)) in
            let wants =
              framed-prefix checks buf (drop (length buf) m) (subst IsFramed cut first)
                (subst (λ x. length buf < length x) cut less) in
            rw (wants, drain)
              (record {
                left = m ∷ ms;
                waits = refl;
                framed = (first, framed);
                continues = whole;
                same = refl;
                inside = less;
              })
        | inr all ↦
            let behind = drop (length m) buf in
            let (front, rest) = cut_behind m (concat ms) buf more whole (ltb-false _ _ all) in
            let cut : buf ≡ m ++ behind =
              sym (take-append-drop (length m) buf) ∙ ap (λ x. x ++ behind) front in
            let (w, same) = relay_each-first m ms r h in
            let large = (find_complete_message-bounds m (length m) first).0 in
            let less : length behind < f =
              omega (arith, ap length cut, length-append m behind, large) in
            let found =
              ap (find_complete_message checks) cut ∙ framed-append checks m behind first in
            let later =
              drain-Drained f ms behind more (relay_message checks ops sink direction enabled m r).1
                less framed rest (ap (λ p. p.0) (sym same) ∙ h) in
            rw (found, drain, front, w, front)
              (record {
                left = later.left;
                waits = later.waits;
                framed = later.framed;
                continues = later.continues;
                same = later.same ∙ sym same;
                inside = later.inside;
              })
      ]

  -- At the end of the bytes nothing is left.
  nothing_left :
      (buf : Bytes) (ms : List Bytes) → buf ≡ concat ms → IsOpen buf ms → (buf ≡ []) × (ms ≡ [])
  unfolding concat
  nothing_left buf [] e h = (e, refl)
  nothing_left buf (m ∷ ms) e h =
      absurd (omega (arith, ap length e, length-append m (concat ms), h))

  begins : (ms : List Bytes) → All IsFramed ms → IsOpen [] ms
  begins [] framed = tt
  begins (m ∷ ms) (first, framed) =
      omega (arith, (find_complete_message-bounds m (length m) first).0)

  ended :
      (ms : List Bytes) (buf : Bytes) (r : Relay A D) {end : End}
      → IsCalm end
      → buf ++ [] ≡ concat ms
      → IsOpen buf ms
      → IsCalm end × (buf ≡ []) × (r ≡ (relay_each ms r).1)
  unfolding relay_each
  ended ms buf r calm whole inside =
      let (empty, none_left) = nothing_left buf ms (sym (append-nil buf) ∙ whole) inside in
      (calm, empty, sym (ap (λ l. (relay_each l r).1) none_left))

  relay-messages_from :
      (ms : List Bytes) (rounds : List (Bool × ReadResult)) (buf : Bytes) (r : Relay A D)
      → All IsFramed ms
      → buf ++ received rounds ≡ concat ms
      → IsOpen buf ms
      → (relay_each ms r).0 ≡ waiting
      → let (end, rest, r') = relay checks ops sink direction enabled rounds buf r in
        IsCalm end × (rest ≡ []) × (r' ≡ (relay_each ms r).1)
  unfolding relay received relay_each
  relay-messages_from ms [] buf r framed whole inside h = ended ms buf r (inl refl) whole inside
  relay-messages_from ms ((true, read) ∷ rounds) buf r framed whole inside h =
      ended ms buf r (inr refl) whole inside
  relay-messages_from ms ((false, closed) ∷ rounds) buf r framed whole inside h =
      ended ms buf r (inr refl) whole inside
  relay-messages_from ms ((false, failed) ∷ rounds) buf r framed whole inside h =
      ended ms buf r (inr refl) whole inside
  relay-messages_from ms ((false, timed_out) ∷ rounds) buf r framed whole inside h =
      relay-messages_from ms rounds buf r framed whole inside h
  relay-messages_from ms ((false, got chunk) ∷ rounds) buf r framed whole inside h =
      let filled = buf ++ chunk in
      let (end, rest, r') =
        drain checks ops sink direction enabled (suc (length filled)) filled r in
      let d =
        drain-Drained (suc (length filled)) ms filled (received rounds) r (omega arith) framed
          (append_assoc buf chunk (received rounds) ∙ whole) h in
      let (calm, empty, done) =
        relay-messages_from d.left rounds rest r' d.framed d.continues d.inside
          (ap (λ p. p.0) d.same ∙ h) in
      rw (d.waits, relay) (calm, empty, done ∙ ap (λ p. p.1) d.same)

  -- Where all that a relay reads are framed messages, it does with them, however they are cut into
  -- reads, what it does with them one by one, if that goes on to the last; it keeps no bytes, and it
  -- waits or has returned.
  pub relay-messages :
      (ms : List Bytes) (rounds : List (Bool × ReadResult)) (r : Relay A D)
      → All IsFramed ms
      → received rounds ≡ concat ms
      → (relay_each ms r).0 ≡ waiting
      → let (end, rest, r') = relay checks ops sink direction enabled rounds [] r in
        IsCalm end × (rest ≡ []) × (r' ≡ (relay_each ms r).1)
  relay-messages ms rounds r framed whole h =
      relay-messages_from ms rounds [] r framed whole (begins ms framed) h
