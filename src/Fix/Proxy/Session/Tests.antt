-- ===== src/Fix/Proxy/Session/Tests.antt =====
-- A session with the throttle, in which the client's message is handled between two reads of the
-- thread of the other direction.
use blackswan_harness.Prelude.{
  Bool, true, false, Bytes, codes, none, some, List, [], ◌∷◌, ◌++◌, ok, ◌≡◌, refl, inl,
}
use blackswan_harness.Prelude.Decimal.{parse_decimal}
use blackswan_harness.Prelude.Scan.{position, starts_with}
use blackswan_harness.Core.Adapter.{inbound, outbound}
use blackswan_harness.Fix.Fields.{soh}
use blackswan_harness.Fix.Framing.{find_complete_message, find_length, find_body, slice}
use blackswan_harness.Fix.Adapters.{RateLimitThrottle, fix_silent_reject, fix_rate_limit_throttle}
use blackswan_harness.Fix.Proxy.{ReadResult, timed_out, got, Sink, waiting, relay}
use blackswan_harness.Fix.Proxy.Drain.{relay-ends}
use blackswan_harness.Fix.Proxy.Session.{
  Half, opened, woken, handled, reads, handles, Moves, Session, Steps, started, outbound_moves,
  inbound_moves,
}
use blackswan_harness.Fix.Proxy.Session.Alone.{session-alone}
use blackswan_harness.Fix.Proxy.Session.OneWay.{rate_limit_throttle-IsOneWay}
use blackswan_harness.Fix.Proxy.Session.Relayed.{relayed}

abbrev taking : Sink Bytes
taking = record { write_all = λ s d. (true, d ++ s); sleep = λ ns d. d }

abbrev head : Bytes
head = codes "8=FIX.4.4"

abbrev tail : Bytes
tail = soh ∷ codes "9=0" ++ soh ∷ codes "10=000" ++ soh ∷ []

abbrev throttle : RateLimitThrottle
throttle = record { threshold = 0; count = 0 }

abbrev first : Session RateLimitThrottle Bytes
first = record { adapter = throttle; to_upstream = opened []; to_client = opened [] }

abbrev filled : Half Bytes
filled = record { buf = head ++ tail; dst = []; end = waiting }

abbrev handed : RateLimitThrottle × Half Bytes
handed = handled true (fix_rate_limit_throttle true) taking outbound true 21 throttle filled

abbrev last : Session RateLimitThrottle Bytes
last = record {
  adapter = handed.0;
  to_upstream = handed.1;
  to_client = record { buf = head; dst = []; end = waiting };
}

no_message : find_complete_message true [] ≡ ok none
unfolding find_complete_message
no_message = refl

whole_message : find_complete_message true (head ++ tail) ≡ ok (some 21)
unfolding find_complete_message find_length find_body slice position starts_with parse_decimal
whole_message = refl

interleaved : Steps true (fix_rate_limit_throttle true) taking first last
unfolding opened woken
interleaved =
    inbound_moves
      (outbound_moves
        (inbound_moves
          (outbound_moves started (reads (false, got (head ++ tail)) refl (inl no_message)))
          (reads (false, timed_out) refl (inl no_message)))
        (handles true 21 refl whole_message))
      (reads (false, got head) refl (inl no_message))

session-alone_example :
    Moves true
      (fix_rate_limit_throttle true)
      taking
      outbound
      throttle
      first.to_upstream
      last.adapter
      last.to_upstream
    × Moves true
        (fix_rate_limit_throttle true)
        taking
        inbound
        throttle
        first.to_client
        throttle
        last.to_client
session-alone_example =
    session-alone true (fix_rate_limit_throttle true) taking first last
      (rate_limit_throttle-IsOneWay true) interleaved

abbrev rounds : List (Bool × ReadResult)
rounds = (false, got head) ∷ (false, got tail) ∷ []

relayed_run :
    let (end, rest, r) =
      relay true fix_silent_reject taking inbound
        (λ n. true)
        rounds
        []
        (record { adapter = tt; dst = []; loads = 0 }) in
    Moves true fix_silent_reject taking inbound tt
      (opened [])
      r.adapter
      (record { buf = rest; dst = r.dst; end = end })
relayed_run =
    relayed true fix_silent_reject taking inbound (λ n. true) rounds tt []
      (relay-ends fix_silent_reject taking inbound (λ n. true) rounds []
        (record { adapter = tt; dst = []; loads = 0 }))
