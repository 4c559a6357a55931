-- ===== src/Fix/Proxy/Delivered.antt =====
-- What a relay writes of a stream of framed messages, described message by message.
use blackswan_harness.Prelude.{
  ℕ, ◌+◌, Bool, true, Bool-cases, if◌then◌else◌, Bytes, List, [], ◌∷◌, ◌++◌, append_assoc,
  append-nil, All, Outcome, ok, err, panic, Outcome-cases, ◌≡◌, ◌≢◌, refl, sym, ap, ◌∙◌, inl, inr,
}
use blackswan_harness.Core.Error.{HarnessError}
use blackswan_harness.Core.Adapter.{
  Direction, InterceptAction, forward, discard, mutate, delay, ProtocolAdapter,
}
use blackswan_harness.Fix.Framing.Whole.{IsFramed}
use blackswan_harness.Fix.Proxy.{
  ReadResult, Sink, End, waiting, Relay, decide, perform, relay_message, relay, unwrap_or_forward,
}
use blackswan_harness.Fix.Proxy.Transparent.{received, Keeps, IsCalm}
use blackswan_harness.Fix.Proxy.Messages.{concat, relay_each, relay-messages}

-- The bytes that go on for a message, by the adapter's answer: an error lets it pass.
abbrev pub sent_on : Outcome HarnessError InterceptAction → Bytes → Bytes
sent_on (ok forward) m = m
sent_on (ok discard) m = []
sent_on (ok (mutate bytes)) m = bytes
sent_on (ok (delay ns)) m = m
sent_on (err e) m = m
sent_on panic m = m

module _ {A : Type 0} (ops : ProtocolAdapter A) (direction : Direction) (enabled : ℕ → Bool) where
  abbrev pub answer : Bytes → A → Outcome HarnessError InterceptAction × A
  answer m a = ops.intercept (record { bytes = m; direction = direction }) a

  -- What goes on for the messages, of which the first is the one after `n` others, and only those are
  -- shown to the adapter for which the proxy is enabled.
  unfoldable pub delivered : ℕ → List Bytes → A → Bytes
  delivered n [] a = []
  delivered n (m ∷ ms) a =
      (if enabled n then sent_on (answer m a).0 m else m)
      ++ delivered (n + 1) ms (if enabled n then (answer m a).1 else a)

  -- The adapter panics on none of the messages that it is shown.
  unfoldable pub Answers : ℕ → List Bytes → A → Type 0
  Answers n [] a = Unit
  Answers n (m ∷ ms) a =
      (enabled n ≡ true → (answer m a).0 ≢ panic)
      × Answers (n + 1) ms (if enabled n then (answer m a).1 else a)

  pub framed-Answers :
      ((m : Bytes) (a : A) → IsFramed m → (answer m a).0 ≢ panic)
      → (n : ℕ) (ms : List Bytes) (a : A) → All IsFramed ms
      → Answers n ms a
  unfolding Answers
  framed-Answers calm n [] a framed = tt
  framed-Answers calm n (m ∷ ms) a (first, framed) =
      (λ on. calm m a first, framed-Answers calm (n + 1) ms _ framed)

module _ {A D : Type 0} (checks : Bool) (ops : ProtocolAdapter A) (sink : Sink D) (log : D → Bytes)
    (keeps : Keeps sink log) (sleeps : (ns : ℕ) (d : D) → log (sink.sleep ns d) ≡ log d)
    (direction : Direction) (enabled : ℕ → Bool) where
  perform-sent :
      (action : InterceptAction) (m : Bytes) (d : D)
      → let (good, d') = perform checks ops sink direction enabled action m d in
        (good ≡ true) × (log d' ≡ log d ++ sent_on (ok action) m)
  unfolding perform
  perform-sent forward m d = (keeps.good m d, keeps.kept m d)
  perform-sent discard m d = (refl, sym (append-nil (log d)))
  perform-sent (mutate bytes) m d = (keeps.good bytes d, keeps.kept bytes d)
  perform-sent (delay ns) m d = (
    keeps.good m (sink.sleep ns d),
    keeps.kept m (sink.sleep ns d) ∙ ap (λ l. l ++ m) (sleeps ns d),
  )

  -- What one message does to a relay.
  record SentOn (m : Bytes) (r : Relay A D) (end : End) (r' : Relay A D) : Type 0 where
    goes_on : end ≡ waiting
    wrote :
        log r'.dst
        ≡ log r.dst
          ++ (if enabled r.loads then sent_on (answer ops direction enabled m r.adapter).0 m else m)
    adapter :
        r'.adapter
        ≡ (if enabled r.loads then (answer ops direction enabled m r.adapter).1 else r.adapter)
    loads : r'.loads ≡ r.loads + 1

  relay_message-SentOn :
      (m : Bytes) (r : Relay A D)
      → (enabled r.loads ≡ true → (answer ops direction enabled m r.adapter).0 ≢ panic)
      → let (end, r') = relay_message checks ops sink direction enabled m r in SentOn m r end r'
  unfolding relay_message decide unwrap_or_forward
  relay_message-SentOn m r calm = elim (Bool-cases (enabled r.loads)) [
    | inr off ↦
        let (good, wrote) = perform-sent forward m r.dst in
        rw (off, relay_message, decide, off, good)
          (record { goes_on = refl; wrote = rw off wrote; adapter = rw off refl; loads = refl })
    | inl on ↦ elim (Outcome-cases (answer ops direction enabled m r.adapter).0) [
      | inl (action, e) ↦
          let (good, wrote) = perform-sent action m r.dst in
          rw (on, relay_message, e, decide, on, good)
            (record {
              goes_on = refl;
              wrote = rw (on, e) wrote;
              adapter = rw on refl;
              loads = refl;
            })
      | inr (inl (x, e)) ↦
          let (good, wrote) = perform-sent forward m r.dst in
          rw (on, relay_message, e, decide, on, good)
            (record {
              goes_on = refl;
              wrote = rw (on, e) wrote;
              adapter = rw on refl;
              loads = refl;
            })
      | inr (inr e) ↦ absurd (calm on e)
    ]
  ]

  each-sent :
      (ms : List Bytes) (r : Relay A D)
      → Answers ops direction enabled r.loads ms r.adapter
      → let (end, r') = relay_each checks ops sink direction enabled ms r in
        (end ≡ waiting)
        × (log r'.dst ≡ log r.dst ++ delivered ops direction enabled r.loads ms r.adapter)
  unfolding relay_each delivered Answers
  each-sent [] r calm = (refl, sym (append-nil (log r.dst)))
  each-sent (m ∷ ms) r (first, calm) =
      let one = relay_message-SentOn m r first in
      let r' = (relay_message checks ops sink direction enabled m r).1 in
      let calm' : Answers ops direction enabled r'.loads ms r'.adapter =
        rw (one.loads, one.adapter) calm in
      let (goes_on, rest) = each-sent ms r' calm' in
      let same : delivered ops direction enabled r'.loads ms r'.adapter
          ≡ delivered ops direction enabled (r.loads + 1) ms (
              if enabled r.loads then (answer ops direction enabled m r.adapter).1 else r.adapter) =
        ap (λ n. delivered ops direction enabled n ms r'.adapter) one.loads
        ∙ ap (delivered ops direction enabled (r.loads + 1) ms) one.adapter in
      rw (one.goes_on, relay_each)
        (
          goes_on,
          rest
              ∙ ap (λ l. l ++ delivered ops direction enabled r'.loads ms r'.adapter) one.wrote
              ∙ append_assoc (log r.dst) _ _
              ∙ ap
                  (λ l.
                    log r.dst
                    ++ ((if enabled r.loads
                          then sent_on (answer ops direction enabled m r.adapter).0 m
                          else m)
                        ++ l))
                  same,
        )

  -- Where all that a relay reads are framed messages, it writes, however they are cut into reads,
  -- what goes on for each of them, in their order: the adapter's answer to those for which a load
  -- finds the proxy enabled, and the message itself for the others. No bytes are kept back, and the
  -- relay waits or has returned, in a build with overflow checks and in one without. Every write
  -- must succeed, and the adapter must not panic on any of the messages that it is shown.
  pub relay-delivers :
      (ms : List Bytes) (rounds : List (Bool × ReadResult)) (r : Relay A D)
      → All IsFramed ms
      → Answers ops direction enabled r.loads ms r.adapter
      → received rounds ≡ concat ms
      → let (end, rest, r') = relay checks ops sink direction enabled rounds [] r in
        IsCalm end
        × (rest ≡ [])
        × (log r'.dst ≡ log r.dst ++ delivered ops direction enabled r.loads ms r.adapter)
  relay-delivers ms rounds r framed calm whole =
      let (goes_on, wrote) = each-sent ms r calm in
      let (ends, empty, done) =
        relay-messages checks ops sink direction enabled ms rounds r framed whole goes_on in
      (ends, empty, ap (λ r. log r.dst) done ∙ wrote)
