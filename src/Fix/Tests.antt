-- ===== src/Fix/Tests.antt =====
-- Runs on one execution report, on buffers that go wrong.
use blackswan_harness.Prelude.{
  ◌+◌, ◌-◌, ◌%◌, ◌≤◌, ◌<◌, true, false, Bytes, codes, length, take, ok, panic, some, List, [], ◌∷◌,
  ◌++◌, ◌≡◌, ◌≢◌, refl, arith, All,
}
use blackswan_harness.Prelude.Decimal.{to_string, to_string03, parse_decimal}
use blackswan_harness.Core.Clock.{u64_mod}
use blackswan_harness.Core.Adapter.{inbound, outbound, is_inbound, RawMessage}
use blackswan_harness.Fix.Fields.{soh}
use blackswan_harness.Prelude.Scan.{Lacks}
use blackswan_harness.Fix.Message.{
  Field, find_tag, get, parse, set_field, write_field, write_body, write_header, write_message,
  compute_checksum, checksum_from, is_structural,
}
use blackswan_harness.Fix.Message.Parsed.{IsField}
use blackswan_harness.Fix.Message.Written.{write_fields, parse-write_fields}
use blackswan_harness.Fix.Framing.{find_complete_message, usize_mod, checksum_trailer_len}
use blackswan_harness.Fix.Framing.Shape.{tagged, counted, header_len}
use blackswan_harness.Fix.Framing.Stable.{find_complete_message-append}
use blackswan_harness.Fix.Framing.Bounds.{find_complete_message-bounds}
use blackswan_harness.Fix.Framing.Frames.{set_field-framed, framed-ne-panic}
use blackswan_harness.Fix.Framing.Faults.{
  find_complete_message-panics, find_complete_message-overflows,
}
use blackswan_harness.Fix.Adapters.{fix_rate_limit_throttle, new_throttle}
use blackswan_harness.Fix.Adapters.Throttle.{
  intercept_all, dropped, outbound_count, throttle-dropped,
}

abbrev version : Bytes
version = codes "FIX.4.4"

abbrev report : List Field
report = (9, codes "10") ∷ (35, codes "8") ∷ (44, codes "7") ∷ (10, codes "000") ∷ []

abbrev sample : Bytes
sample = write_fields ((8, version) ∷ report)

version-Lacks : Lacks soh version
version-Lacks = omega arith

report-IsField : All IsField ((8, version) ∷ report)
report-IsField = omega arith

sample_parsed : parse sample ≡ ok (record { fields = (8, version) ∷ report })
sample_parsed = parse-write_fields (8, version) report report-IsField

abbrev price : Bytes
price = codes "9"

abbrev out : Bytes
out = write_message version (write_body 44 price ((8, version) ∷ report))

rewritten : set_field sample 44 price ≡ ok out
unfolding set_field get find_tag
rewritten = rw sample_parsed refl

out_short : length out < usize_mod
unfolding write_message write_header write_body write_field is_structural to_string to_string03
    compute_checksum checksum_from
out_short = omega arith

set_field-framed_example : find_complete_message true (out ++ codes "8=") ≡ ok (some (length out))
set_field-framed_example =
    set_field-framed true sample 44 price out (codes "8=") rewritten out_short

find_complete_message-append_example :
    find_complete_message true ((out ++ codes "8=") ++ version)
    ≡ find_complete_message true (out ++ codes "8=")
find_complete_message-append_example =
    find_complete_message-append true (out ++ codes "8=") version (rw set_field-framed_example tt)

out-bounds : (checksum_trailer_len ≤ length out) × (length out ≤ length (out ++ codes "8="))
out-bounds = find_complete_message-bounds (out ++ codes "8=") (length out) set_field-framed_example

followed-ne-panic : set_field (take (length out) (out ++ codes "8=")) 44 price ≢ panic
followed-ne-panic =
    framed-ne-panic true (out ++ codes "8=") (length out) 44 price set_field-framed_example

find_complete_message-panics_example :
    find_complete_message true (tagged version (soh ∷ [])) ≡ panic
find_complete_message-panics_example = find_complete_message-panics true version version-Lacks

abbrev huge : Bytes
huge = codes "18446744073709551576"

huge-Lacks : Lacks soh huge
huge-Lacks = omega arith

huge_value : parse_decimal usize_mod huge ≡ some 18446744073709551576
unfolding parse_decimal
huge_value = refl

find_complete_message-overflows_example :
    (find_complete_message true (tagged version (counted huge [])) ≡ panic)
    × (find_complete_message false (tagged version (counted huge []))
        ≡ ok (
            some (
              (header_len version huge + 18446744073709551576 + checksum_trailer_len) % usize_mod)))
find_complete_message-overflows_example =
    find_complete_message-overflows version huge [] 18446744073709551576 version-Lacks huge-Lacks
      huge_value (omega arith) (omega arith)

abbrev inbound_sample : RawMessage
inbound_sample = record { bytes = sample; direction = inbound }

abbrev sent : List RawMessage
sent =
    record { bytes = sample; direction = outbound }
    ∷ inbound_sample
    ∷ record { bytes = out; direction = outbound }
    ∷ []

sent_few : outbound_count sent < u64_mod
unfolding outbound_count is_inbound
sent_few = omega arith

throttled_count :
    dropped (intercept_all (fix_rate_limit_throttle true) sent (new_throttle 1))
    ≡ outbound_count sent - 1
throttled_count = throttle-dropped true 1 sent sent_few
