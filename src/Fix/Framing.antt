-- ===== src/Fix/Framing.antt =====
-- crates/adapters/src/fix/framing.rs: the length of the first message of a buffer. `checks` says
-- whether the build checks integer overflow (a debug build panics, a release build wraps at 64 bits).
pub mod Stable
pub mod Shape
pub mod Faults
pub mod Frames
pub mod Bounds
pub mod Whole
use blackswan_harness.Prelude.{
  ℕ, suc, ◌+◌, ◌-◌, ◌%◌, ◌^◌, Bool, not, ◌&&◌, ltb, leb, if◌then◌else◌, Bytes, codes, Option, none,
  some, length, take, drop, Outcome, ok, err, panic,
}
use blackswan_harness.Prelude.Decimal.{parse_decimal}
use blackswan_harness.Fix.Fields.{soh}
use blackswan_harness.Prelude.Scan.{position, starts_with}
use blackswan_harness.Fix.Message.{ParseError, malformed_tag}

abbrev pub usize_mod : ℕ
usize_mod = 2 ^ 64

-- The slice `&s[from..to]`, which panics where it is out of order or out of range.
unfoldable pub slice : ℕ → ℕ → Bytes → Option Bytes
slice from to s =
    if leb from to && leb to (length s) then some (take (to - from) (drop from s)) else none

-- "10=", three digits and the separator.
abbrev pub checksum_trailer_len : ℕ
checksum_trailer_len = 7

-- The last part: the header ends at `header_len`, and the body has the length that it declares.
unfoldable pub find_body : Bool → Bytes → ℕ → ℕ → Outcome ParseError (Option ℕ)
find_body checks buf header_len body_length =
    let exact = header_len + body_length + checksum_trailer_len in
    let total_len = exact % usize_mod in
    if checks && leb usize_mod exact
    then panic
    else if ltb (length buf) total_len
    then ok none
    else ok (some total_len)

-- The middle part, behind the separator of tag 8: the declared length.
unfoldable pub find_length : Bool → Bytes → ℕ → Bytes → Outcome ParseError (Option ℕ)
find_length checks buf tag8_end rest =
    if leb 2 (length rest) && not (starts_with rest (codes "9="))
    then err malformed_tag
    else elim (position soh rest) [
      | none ↦ ok none
      | some tag9_end_rel ↦ elim (slice 2 tag9_end_rel rest) [
        | none ↦ panic
        | some digits ↦ elim (parse_decimal usize_mod digits) [
          | none ↦ err malformed_tag
          | some body_length ↦ find_body checks buf (tag8_end + 1 + tag9_end_rel + 1) body_length
        ]
      ]
    ]

unfoldable pub find_complete_message : Bool → Bytes → Outcome ParseError (Option ℕ)
find_complete_message checks buf =
    if ltb (length buf) 2
    then ok none
    else if not (starts_with buf (codes "8="))
    then err malformed_tag
    else elim (position soh buf) [
      | none ↦ ok none
      | some tag8_end ↦ find_length checks buf tag8_end (drop (suc tag8_end) buf)
    ]
