-- ===== src/Fix/Framing/Faults.antt =====
-- Buffers on which framing goes wrong: all of them begin like a message.
use blackswan_harness.Prelude.{
  ℕ, ◌+◌, ◌%◌, ◌≤◌, Bool, true, false, le→leb, ltb-eq-false, Bytes, some, [], ◌∷◌, length, ok,
  panic, ◌≡◌, ◌∙◌,
}
use blackswan_harness.Prelude.Decimal.{parse_decimal}
use blackswan_harness.Fix.Fields.{soh}
use blackswan_harness.Prelude.Scan.{position, Lacks}
use blackswan_harness.Fix.Framing.{
  slice, find_body, find_length, find_complete_message, usize_mod, checksum_trailer_len,
}
use blackswan_harness.Fix.Framing.Shape.{tagged, counted, header_len, find-tagged, find-counted}

-- Two separators behind the version, and nothing else yet, make framing panic: the slice of the
-- length's digits ends before it begins.
pub find_complete_message-panics :
    (checks : Bool) (begin : Bytes)
    → Lacks soh begin
    → find_complete_message checks (tagged begin (soh ∷ [])) ≡ panic
unfolding find_length slice position
find_complete_message-panics checks begin h = find-tagged checks begin (soh ∷ []) h

-- A declared length so large that the length of the whole message passes the machine word makes a
-- build with overflow checks panic, and any other build report the wrapped length, if that many bytes
-- are there: at the first such length it is 0.
pub find_complete_message-overflows :
    (begin digits tail : Bytes) (n : ℕ)
    → Lacks soh begin
    → Lacks soh digits
    → parse_decimal usize_mod digits ≡ some n
    → usize_mod ≤ header_len begin digits + n + checksum_trailer_len
    → (header_len begin digits + n + checksum_trailer_len) % usize_mod
      ≤ length (tagged begin (counted digits tail))
    → (find_complete_message true (tagged begin (counted digits tail)) ≡ panic)
      × (find_complete_message false (tagged begin (counted digits tail))
          ≡ ok (some ((header_len begin digits + n + checksum_trailer_len) % usize_mod)))
unfolding find_body
find_complete_message-overflows begin digits tail n hb hd e over room =
    let buf = tagged begin (counted digits tail) in
    let exact = header_len begin digits + n + checksum_trailer_len in
    (
      find-counted true begin digits tail n hb hd e ∙ rw (le→leb usize_mod exact over),
      find-counted false begin digits tail n hb hd e
          ∙ rw (ltb-eq-false (length buf) (exact % usize_mod) room),
    )
