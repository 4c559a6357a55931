-- ===== src/Fix/Proxy/Tests.antt =====
-- A relay whose socket takes every write.
use blackswan_harness.Prelude.{
  ℕ, Bool, true, false, Bytes, codes, some, panic, List, [], ◌∷◌, ◌++◌, ◌≡◌, ◌≢◌, refl, inr, arith,
}
use blackswan_harness.Prelude.Decimal.{parse_decimal}
use blackswan_harness.Core.Adapter.{inbound}
use blackswan_harness.Fix.Fields.{soh}
use blackswan_harness.Prelude.Scan.{Lacks, position, starts_with}
use blackswan_harness.Fix.Framing.{find_complete_message, usize_mod}
use blackswan_harness.Fix.Framing.Shape.{tagged, counted}
use blackswan_harness.Fix.Adapters.{fix_silent_reject}
use blackswan_harness.Fix.Adapters.Stream.{silent_reject-answers}
use blackswan_harness.Fix.Proxy.{
  ReadResult, closed, timed_out, got, Sink, waiting, spinning, Relay, drain, relay,
}
use blackswan_harness.Fix.Proxy.Drain.{relay-ends, relay-chunks}
use blackswan_harness.Fix.Proxy.Transparent.{Keeps, IsCalm, NoMessage, received, relay-passes}
use blackswan_harness.Fix.Proxy.Spin.{drain-spins}

abbrev taking : Sink Bytes
taking = record { write_all = λ s d. (true, d ++ s); sleep = λ ns d. d }

taking-Keeps : Keeps taking (λ d. d)
taking-Keeps = record { good = λ s d. refl; kept = λ s d. refl }

abbrev idle : Relay (Unit {0}) Bytes
idle = record { adapter = tt; dst = []; loads = 0 }

abbrev on : ℕ → Bool
on n = true

abbrev head : Bytes
head = codes "8=FIX.4.4"

abbrev tail : Bytes
tail = soh ∷ codes "9=0" ++ soh ∷ codes "10=000" ++ soh ∷ []

head_waits :
    (relay true fix_silent_reject taking inbound on ((false, got head) ∷ []) [] idle).0 ≡ waiting
unfolding relay drain find_complete_message position starts_with
head_waits = refl

relay-chunks_example :
    relay true fix_silent_reject taking inbound on
      ((false, got head) ∷ (false, got tail) ∷ (false, closed) ∷ [])
      []
      idle
    ≡ relay true fix_silent_reject taking inbound on
        ((false, got (head ++ tail)) ∷ (false, closed) ∷ [])
        []
        idle
relay-chunks_example =
    relay-chunks fix_silent_reject taking inbound on head tail ((false, closed) ∷ []) [] idle
      head_waits

relay-ends_example :
    (relay true fix_silent_reject taking inbound on ((false, got (head ++ tail)) ∷ []) [] idle).0
    ≢ spinning
relay-ends_example =
    relay-ends fix_silent_reject taking inbound on ((false, got (head ++ tail)) ∷ []) [] idle

abbrev rounds : List (Bool × ReadResult)
rounds = (false, got head) ∷ (false, timed_out) ∷ (false, closed) ∷ []

calm : IsCalm (relay true fix_silent_reject taking inbound (λ n. false) rounds [] idle).0
unfolding relay drain find_complete_message position starts_with
calm = inr refl

none_held : NoMessage true []
unfolding find_complete_message
none_held n h = cc

relay-passes_example :
    let (end, rest, r') = relay true fix_silent_reject taking inbound (λ n. false) rounds [] idle in
    (r'.dst ++ rest ≡ idle.dst ++ ([] ++ received rounds)) × NoMessage true rest
relay-passes_example =
    relay-passes true fix_silent_reject taking (λ d. d) taking-Keeps inbound rounds [] idle
      none_held calm

abbrev huge : Bytes
huge = codes "18446744073709551576"

version-Lacks : Lacks soh (codes "FIX.4.4")
version-Lacks = omega arith

huge-Lacks : Lacks soh huge
huge-Lacks = omega arith

huge_value : parse_decimal usize_mod huge ≡ some 18446744073709551576
unfolding parse_decimal
huge_value = refl

quiet :
    (a : Unit {0})
    → (fix_silent_reject.intercept (record { bytes = []; direction = inbound }) a).0 ≢ panic
unfolding fix_silent_reject
quiet a = (silent_reject-answers []).0

drain-spins_example :
    (drain false fix_silent_reject taking inbound on 1000
      (tagged (codes "FIX.4.4") (counted huge []))
      idle).0
    ≡ spinning
drain-spins_example =
    drain-spins fix_silent_reject taking inbound on (λ s d. refl) quiet 1000 (codes "FIX.4.4") huge
      [] 18446744073709551576 idle version-Lacks huge-Lacks huge_value (omega arith)
