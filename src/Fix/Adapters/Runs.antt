-- ===== src/Fix/Adapters/Runs.antt =====
-- Streams of framed messages through the relay, cut in the middle of a message.
use blackswan_harness.Prelude.{
  ℕ, zero, suc, ◌+◌, ◌-◌, ◌<◌, Bool, true, false, Bytes, codes, bytes_eq, length, take, drop, panic,
  ok, ◌≢◌, List, [], ◌∷◌, ◌++◌, All, ◌≡◌, refl, arith,
}
use blackswan_harness.Prelude.Decimal.{parse_decimal}
use blackswan_harness.Prelude.Scan.{position, starts_with}
use blackswan_harness.Core.Clock.{u64_mod}
use blackswan_harness.Core.Adapter.{inbound, outbound}
use blackswan_harness.Fix.Fields.{soh}
use blackswan_harness.Prelude.Decimal.{to_string}
use blackswan_harness.Fix.Message.{Field, parse, write_field}
use blackswan_harness.Fix.Message.Parsed.{IsField}
use blackswan_harness.Fix.Message.Written.{write_fields, parse-write_fields}
use blackswan_harness.Fix.Framing.{find_complete_message, find_length, slice, find_body}
use blackswan_harness.Fix.Framing.Whole.{IsFramed}
use blackswan_harness.Fix.Proxy.{ReadResult, got, timed_out, closed, Sink, Relay, relay}
use blackswan_harness.Fix.Proxy.Transparent.{Keeps, IsCalm, received}
use blackswan_harness.Fix.Proxy.Messages.{concat}
use blackswan_harness.Fix.Proxy.Delivered.{
  answer, delivered, Answers, framed-Answers, relay-delivers,
}
use blackswan_harness.Fix.Adapters.{
  new_throttle, fix_silent_reject, fix_rate_limit_throttle, PriceMutation,
  fix_execution_report_price_mutation,
}
use blackswan_harness.Fix.Adapters.Calm.{price_mutation-calm}
use blackswan_harness.Fix.Adapters.Stream.{
  is_message, fits_any, fits_all, first_is, rejections, without, silent_reject-delivers,
}
use blackswan_harness.Fix.Adapters.Limited.{always, throttle-delivers}

abbrev stored : Sink Bytes
stored = record { write_all = λ s d. (true, d ++ s); sleep = λ ns d. d }

stored-Keeps : Keeps stored (λ d. d)
stored-Keeps = record { good = λ s d. refl; kept = λ s d. refl }

abbrev message : Bytes → Bytes
message kind =
    codes "8=FIX.4.4"
    ++ soh ∷ (codes "9=5" ++ soh ∷ (codes "35=" ++ kind ++ soh ∷ (codes "10=000" ++ soh ∷ [])))

abbrev heartbeat : Bytes
heartbeat = message (codes "0")

abbrev reject : Bytes
reject = message (codes "3")

abbrev messages : List Bytes
messages = heartbeat ∷ reject ∷ heartbeat ∷ []

messages-IsFramed : All IsFramed messages
unfolding find_complete_message find_length slice find_body position starts_with parse_decimal
messages-IsFramed = (refl, (refl, (refl, tt)))

-- The cut is inside of the second message.
abbrev reads : List (Bool × ReadResult)
reads =
    (false, got (take 30 (concat messages)))
    ∷ (false, timed_out)
    ∷ (false, got (drop 30 (concat messages)))
    ∷ (false, closed)
    ∷ []

reads-whole : received reads ≡ concat messages
unfolding received concat
reads-whole = refl

abbrev fresh : {A : Type 0} → A → Relay A Bytes
fresh a = record { adapter = a; dst = []; loads = 0 }

-- The proxy is disabled for the first message.
abbrev later : ℕ → Bool
later zero = false
later (suc n) = true

silent_reject-delivers_example :
    let (end, rest, r') = relay false fix_silent_reject stored inbound later reads [] (fresh tt) in
    IsCalm end
    × (rest ≡ [])
    × (r'.dst ≡ [] ++ without (is_message (fits_any rejections)) later 0 messages)
silent_reject-delivers_example =
    silent_reject-delivers false stored (λ d. d) stored-Keeps (λ ns d. refl) later messages reads
      (fresh tt) messages-IsFramed reads-whole

few : (new_throttle 2).count + length messages < u64_mod
unfolding new_throttle
few = omega arith

throttle-delivers_example :
    let (end, rest, r') =
      relay false
        (fix_rate_limit_throttle false)
        stored
        outbound
        always
        reads
        []
        (fresh (new_throttle 2)) in
    IsCalm end
    × (rest ≡ [])
    × (r'.dst ≡ [] ++ concat (take ((new_throttle 2).threshold - (new_throttle 2).count) messages))
throttle-delivers_example =
    throttle-delivers false stored (λ d. d) stored-Keeps (λ ns d. refl) messages reads
      (fresh (new_throttle 2)) messages-IsFramed reads-whole few

abbrev nine : PriceMutation
nine = record { mutated_price = codes "9" }

calm :
    (m : Bytes) (a : PriceMutation)
    → IsFramed m
    → (answer fix_execution_report_price_mutation inbound later m a).0 ≢ panic
unfolding fix_execution_report_price_mutation
calm m a framed = price_mutation-calm m inbound a framed

answered : Answers fix_execution_report_price_mutation inbound later 0 messages nine
answered =
    framed-Answers fix_execution_report_price_mutation inbound later calm 0 messages nine
      messages-IsFramed

relay-delivers_example :
    let (end, rest, r') =
      relay false fix_execution_report_price_mutation stored inbound later reads [] (fresh nine) in
    IsCalm end
    × (rest ≡ [])
    × (r'.dst ≡ [] ++ delivered fix_execution_report_price_mutation inbound later 0 messages nine)
relay-delivers_example =
    relay-delivers false fix_execution_report_price_mutation stored (λ d. d) stored-Keeps
      (λ ns d. refl) inbound later messages reads (fresh nine) messages-IsFramed answered
      reads-whole

abbrev rejecting : List Field
rejecting = (9, codes "5") ∷ (35, codes "3") ∷ (10, codes "000") ∷ []

rejecting-IsField : All IsField ((8, codes "FIX.4.4") ∷ rejecting)
rejecting-IsField = omega arith

reject_fields : parse reject ≡ ok (record { fields = (8, codes "FIX.4.4") ∷ rejecting })
unfolding write_fields write_field to_string
reject_fields = parse-write_fields (8, codes "FIX.4.4") rejecting rejecting-IsField

-- The session-level reject is hidden.
reject_hidden : is_message (fits_any rejections) reject ≡ true
unfolding fits_any fits_all first_is bytes_eq
reject_hidden = rw (is_message, reject_fields) refl
