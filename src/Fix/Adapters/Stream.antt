-- ===== src/Fix/Adapters/Stream.antt =====
-- What the faults do to a whole stream of messages, through the relay.
use blackswan_harness.Prelude.{
  ℕ, ◌+◌, Bool, true, false, ◌&&◌, Bool-cases, ◌==◌, ◌||◌, arith, bytes_eq, codes, none, some,
  if◌then◌else◌, Bytes, List, [], ◌∷◌, ◌++◌, All, ok, err, panic, Outcome-cases, ◌≡◌, ◌≢◌, refl, ap,
  ◌∙◌, inl, inr,
}
use blackswan_harness.Core.Adapter.{inbound, is_inbound, RawMessage, ProtocolAdapter}
use blackswan_harness.Fix.Fields.{tag_msg_type, msg_type_execution_report}
use blackswan_harness.Fix.Message.{Field, FixMessage, find_tag, get, has, parse}
use blackswan_harness.Fix.Message.Safe.{parse-ne-panic}
use blackswan_harness.Fix.Framing.Whole.{IsFramed}
use blackswan_harness.Fix.Proxy.{ReadResult, Sink, Relay, relay}
use blackswan_harness.Fix.Proxy.Transparent.{received, Keeps, IsCalm}
use blackswan_harness.Fix.Proxy.Messages.{concat}
use blackswan_harness.Fix.Proxy.Delivered.{
  sent_on, answer, delivered, framed-Answers, relay-delivers,
}
use blackswan_harness.Fix.Adapters.{
  is_rejection, is_fill, silent_reject_intercept, fix_silent_reject,
  ack_without_execution_intercept, fix_ack_without_execution,
}

-- The bytes parse to a message for which the test holds.
abbrev pub is_message : (FixMessage → Bool) → Bytes → Bool
is_message test m = elim (parse m) [ ok parsed ↦ test parsed | err e ↦ false | panic ↦ false ]

-- Tags with the values that they have, each at its first occurrence.
abbrev pub Pattern : Type 0
Pattern = List (ℕ × Bytes)

unfoldable pub first_is : ℕ → Bytes → List Field → Bool
first_is tag value [] = false
first_is tag value ((t, v) ∷ fs) = if t == tag then bytes_eq v value else first_is tag value fs

unfoldable pub fits_all : Pattern → FixMessage → Bool
fits_all [] m = true
fits_all ((tag, value) ∷ pattern) m = first_is tag value m.fields && fits_all pattern m

unfoldable pub fits_any : List Pattern → FixMessage → Bool
fits_any [] m = false
fits_any (pattern ∷ patterns) m = fits_all pattern m || fits_any patterns m

-- The rejections of FIX: a session-level reject, a refused cancel, and an execution report whose order
-- status or whose type of execution is the rejected one.
abbrev pub rejections : List Pattern
rejections =
    ((35, codes "3") ∷ [])
    ∷ ((35, codes "9") ∷ [])
    ∷ ((35, codes "8") ∷ (39, codes "8") ∷ [])
    ∷ ((35, codes "8") ∷ (150, codes "8") ∷ [])
    ∷ []

-- The reports on executions: those of a trade, and those on an order that is filled in part or in
-- full.
abbrev pub executions : List Pattern
executions =
    ((35, codes "8") ∷ (150, codes "F") ∷ [])
    ∷ ((35, codes "8") ∷ (39, codes "1") ∷ [])
    ∷ ((35, codes "8") ∷ (39, codes "2") ∷ [])
    ∷ []

has-first_is :
    (m : FixMessage) (tag : ℕ) (value : Bytes) → has m tag value ≡ first_is tag value m.fields
unfolding has get find_tag first_is
has-first_is m tag value = go m.fields
  where
    go :
        (fs : List Field)
        → (elim (find_tag tag fs) [ none ↦ false | some v ↦ bytes_eq v value ])
          ≡ first_is tag value fs
    go [] = refl
    go ((t, v) ∷ fs) = elim (Bool-cases (t == tag)) [
      | inl here ↦ rw here refl
      | inr elsewhere ↦ rw elsewhere (go fs)
    ]

rejection-fits : (m : FixMessage) → is_rejection m ≡ fits_any rejections m
unfolding is_rejection fits_any fits_all
rejection-fits m =
    rw
      (
        has-first_is m 35 (codes "3"),
        has-first_is m 35 (codes "9"),
        has-first_is m 35 (codes "8"),
        has-first_is m 39 (codes "8"),
        has-first_is m 150 (codes "8"),
      )
      (ground arith)

-- A message on an execution, as the code tests it: an execution report on a fill.
abbrev is_execution : FixMessage → Bool
is_execution m = has m tag_msg_type msg_type_execution_report && is_fill m

execution-fits : (m : FixMessage) → is_execution m ≡ fits_any executions m
unfolding is_fill fits_any fits_all
execution-fits m =
    rw
      (
        has-first_is m 35 (codes "8"),
        has-first_is m 150 (codes "F"),
        has-first_is m 39 (codes "1"),
        has-first_is m 39 (codes "2"),
      )
      (ground arith)

-- The code's test in place of a description with the same answers.
is_message-same :
    (test spec : FixMessage → Bool)
    → ((m : FixMessage) → test m ≡ spec m)
    → (m : Bytes) → is_message test m ≡ is_message spec m
is_message-same test spec same m = elim (Outcome-cases (parse m)) [
  | inl (p, e) ↦ rw (is_message, e) (same p)
  | inr (inl (x, e)) ↦ rw (is_message, e) refl
  | inr (inr e) ↦ rw (is_message, e) refl
]

-- The messages without those that are hidden while the proxy is enabled.
unfoldable pub without : (Bytes → Bool) → (ℕ → Bool) → ℕ → List Bytes → Bytes
without hidden enabled n [] = []
without hidden enabled n (m ∷ ms) =
    (if enabled n && hidden m then [] else m) ++ without hidden enabled (n + 1) ms

abbrev received_inbound : Bytes → RawMessage
received_inbound m = record { bytes = m; direction = inbound }

pub silent_reject-answers :
    (m : Bytes)
    → (silent_reject_intercept (received_inbound m) ≢ panic)
      × (sent_on (silent_reject_intercept (received_inbound m)) m
          ≡ (if is_message is_rejection m then [] else m))
unfolding silent_reject_intercept is_inbound
silent_reject-answers m = elim (Outcome-cases (parse m)) [
  | inl (p, e) ↦ elim (Bool-cases (is_rejection p)) [
    | inl hit ↦ rw (e, silent_reject_intercept, hit, is_message) ((λ k. cc), refl)
    | inr miss ↦ rw (e, silent_reject_intercept, miss, is_message) ((λ k. cc), refl)
  ]
  | inr (inl (x, e)) ↦ rw (e, silent_reject_intercept, is_message) ((λ k. cc), refl)
  | inr (inr e) ↦ absurd (parse-ne-panic m e)
]

ack_without_execution-answers :
    (m : Bytes)
    → (ack_without_execution_intercept (received_inbound m) ≢ panic)
      × (sent_on (ack_without_execution_intercept (received_inbound m)) m
          ≡ (if is_message is_execution m then [] else m))
unfolding ack_without_execution_intercept is_inbound
ack_without_execution-answers m = elim (Outcome-cases (parse m)) [
  | inl (p, e) ↦ elim (Bool-cases (has p tag_msg_type msg_type_execution_report)) [
    | inr other ↦ rw (e, ack_without_execution_intercept, other, is_message) ((λ k. cc), refl)
    | inl report ↦ elim (Bool-cases (is_fill p)) [
      | inl hit ↦ rw (e, ack_without_execution_intercept, report, hit, is_message) ((λ k. cc), refl)
      | inr miss ↦
          rw (e, ack_without_execution_intercept, report, miss, is_message) ((λ k. cc), refl)
    ]
  ]
  | inr (inl (x, e)) ↦ rw (e, ack_without_execution_intercept, is_message) ((λ k. cc), refl)
  | inr (inr e) ↦ absurd (parse-ne-panic m e)
]

-- An adapter with no state that hides some messages and lets the others pass.
delivered-without :
    (ops : ProtocolAdapter (Unit {0})) (hidden : Bytes → Bool) (enabled : ℕ → Bool)
    → ((m : Bytes) (a : Unit {0})
        → sent_on (answer ops inbound enabled m a).0 m ≡ (if hidden m then [] else m))
    → (n : ℕ) (ms : List Bytes) (a : Unit {0})
    → delivered ops inbound enabled n ms a ≡ without hidden enabled n ms
unfolding delivered without
delivered-without ops hidden enabled hides n [] a = refl
delivered-without ops hidden enabled hides n (m ∷ ms) a =
    let rest = delivered-without ops hidden enabled hides (n + 1) ms in
    elim (Bool-cases (enabled n)) [
      | inl on ↦ rw (on, hides m a, rest (answer ops inbound enabled m a).1)
      | inr off ↦ rw (off, rest a)
    ]

module _ {D : Type 0} (checks : Bool) (sink : Sink D) (log : D → Bytes) (keeps : Keeps sink log)
    (sleeps : (ns : ℕ) (d : D) → log (sink.sleep ns d) ≡ log d) where
  hidden-delivers :
      (ops : ProtocolAdapter (Unit {0})) (hidden : Bytes → Bool) (enabled : ℕ → Bool)
      → ((m : Bytes) (a : Unit {0})
          → ((answer ops inbound enabled m a).0 ≢ panic)
            × (sent_on (answer ops inbound enabled m a).0 m ≡ (if hidden m then [] else m)))
      → (ms : List Bytes) (rounds : List (Bool × ReadResult)) (r : Relay (Unit {0}) D)
      → All IsFramed ms
      → received rounds ≡ concat ms
      → let (end, rest, r') = relay checks ops sink inbound enabled rounds [] r in
        IsCalm end × (rest ≡ []) × (log r'.dst ≡ log r.dst ++ without hidden enabled r.loads ms)
  hidden-delivers ops hidden enabled answers ms rounds r framed whole =
      let (ends, empty, wrote) =
        relay-delivers checks ops sink log keeps sleeps inbound enabled ms rounds r framed
          (framed-Answers ops inbound enabled (λ m a f. (answers m a).0) r.loads ms r.adapter
            framed)
          whole in
      (
        ends,
        empty,
        wrote
            ∙ ap (λ l. log r.dst ++ l)
                (delivered-without ops hidden enabled (λ m a. (answers m a).1) r.loads ms
                  r.adapter),
      )

  -- With the adapter of the silent rejects, what a relay of inbound messages writes is the framed
  -- messages it reads, in their order and however they are cut into reads, without the rejections
  -- that a load finds the proxy enabled for: those that parse and fit one of the patterns of
  -- `rejections`. Every write must succeed.
  pub silent_reject-delivers :
      (enabled : ℕ → Bool) (ms : List Bytes) (rounds : List (Bool × ReadResult))
      (r : Relay (Unit {0}) D)
      → All IsFramed ms
      → received rounds ≡ concat ms
      → let (end, rest, r') = relay checks fix_silent_reject sink inbound enabled rounds [] r in
        IsCalm end
        × (rest ≡ [])
        × (log r'.dst ≡ log r.dst ++ without (is_message (fits_any rejections)) enabled r.loads ms)
  unfolding fix_silent_reject
  silent_reject-delivers enabled =
      hidden-delivers fix_silent_reject (is_message (fits_any rejections)) enabled (λ m a. (
        (silent_reject-answers m).0,
        (silent_reject-answers m).1
            ∙ ap (λ b. if b then [] else m)
                (is_message-same is_rejection (fits_any rejections) rejection-fits m),
      ))

  -- The same for the acknowledgements without executions, which hide the reports on executions.
  ack_without_execution-delivers :
      (enabled : ℕ → Bool) (ms : List Bytes) (rounds : List (Bool × ReadResult))
      (r : Relay (Unit {0}) D)
      → All IsFramed ms
      → received rounds ≡ concat ms
      → let (end, rest, r') =
          relay checks fix_ack_without_execution sink inbound enabled rounds [] r in
        IsCalm end
        × (rest ≡ [])
        × (log r'.dst ≡ log r.dst ++ without (is_message (fits_any executions)) enabled r.loads ms)
  unfolding fix_ack_without_execution
  ack_without_execution-delivers enabled =
      hidden-delivers fix_ack_without_execution (is_message (fits_any executions)) enabled (λ m a. (
        (ack_without_execution-answers m).0,
        (ack_without_execution-answers m).1
            ∙ ap (λ b. if b then [] else m)
                (is_message-same is_execution (fits_any executions) execution-fits m),
      ))
