-- ===== src/Fix/Framing/Shape.antt =====
-- Framing of a buffer that begins with the tags 8 and 9, in that order.
use blackswan_harness.Prelude.{
  ℕ, suc, ◌+◌, ◌-◌, ◌≤◌, Bool, le→leb, ltb-eq-false, Bytes, some, ◌∷◌, ◌++◌, length, length-append,
  take-append, drop-append_suc, ◌≡◌, ap, ◌∙◌, arith,
}
use blackswan_harness.Prelude.Decimal.{parse_decimal}
use blackswan_harness.Fix.Fields.{soh}
use blackswan_harness.Prelude.Scan.{position, position-Lacks, starts_with, Lacks}
use blackswan_harness.Fix.Framing.{slice, find_body, find_length, find_complete_message, usize_mod}

-- "8=", the version, "9=" and the digits of the length, each behind a separator, and what follows.
abbrev pub tagged : Bytes → Bytes → Bytes
tagged begin rest = b'8' ∷ b'=' ∷ (begin ++ soh ∷ rest)

abbrev pub counted : Bytes → Bytes → Bytes
counted digits tail = b'9' ∷ b'=' ∷ (digits ++ soh ∷ tail)

abbrev pub header_len : Bytes → Bytes → ℕ
header_len begin digits = length begin + length digits + 6

-- Behind the tag 8 framing goes on with the rest.
pub find-tagged :
    (checks : Bool) (begin rest : Bytes)
    → Lacks soh begin
    → find_complete_message checks (tagged begin rest)
      ≡ find_length checks (tagged begin rest) (suc (suc (length begin))) rest
unfolding find_complete_message starts_with
find-tagged checks begin rest h =
    let found : position soh (tagged begin rest) ≡ some (suc (suc (length begin))) =
      position-Lacks soh (b'8' ∷ b'=' ∷ begin) rest (omega arith, (omega arith, h)) in
    rw (
      ltb-eq-false (length (tagged begin rest)) 2 (omega arith),
      found,
      find_complete_message,
      drop-append_suc begin soh rest,
    )

slice-counted :
    (digits tail : Bytes) → slice 2 (suc (suc (length digits))) (counted digits tail) ≡ some digits
unfolding slice
slice-counted digits tail =
    let n = length digits in
    let inside : suc (suc n) ≤ suc (suc (length (digits ++ soh ∷ tail))) =
      omega (arith, length-append digits (soh ∷ tail)) in
    let width : suc (suc n) - 2 ≡ n = omega arith in
    rw (le→leb 2 (suc (suc n)) (omega arith), le→leb (suc (suc n)) _ inside, width)
      (ap some (take-append digits (soh ∷ tail)))

pub find-counted :
    (checks : Bool) (begin digits tail : Bytes) (n : ℕ)
    → Lacks soh begin
    → Lacks soh digits
    → parse_decimal usize_mod digits ≡ some n
    → find_complete_message checks (tagged begin (counted digits tail))
      ≡ find_body checks (tagged begin (counted digits tail)) (header_len begin digits) n
unfolding find_length starts_with
find-counted checks begin digits tail n hb hd e =
    let buf = tagged begin (counted digits tail) in
    let found : position soh (counted digits tail) ≡ some (suc (suc (length digits))) =
      position-Lacks soh (b'9' ∷ b'=' ∷ digits) tail (omega arith, (omega arith, hd)) in
    let same : suc (suc (length begin)) + 1 + suc (suc (length digits)) + 1
        ≡ header_len begin digits =
      omega arith in
    find-tagged checks begin (counted digits tail) hb
    ∙ rw (
      le→leb 2 (suc (suc (length (digits ++ soh ∷ tail)))) (omega arith),
      found,
      slice-counted digits tail,
      e,
      same,
    )
