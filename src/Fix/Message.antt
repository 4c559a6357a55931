-- ===== src/Fix/Message.antt =====
-- crates/adapters/src/fix/message.rs: parsing a message, and re-encoding it with one field replaced.
pub mod Encode
pub mod Parsed
pub mod Written
pub mod RoundTrip
pub mod Safe
use blackswan_harness.Prelude.{
  ℕ, suc, ◌+◌, ◌%◌, ◌^◌, Bool, true, false, ◌||◌, ◌==◌, if◌then◌else◌, bytes_eq, Bytes, codes,
  Option, none, some, List, [], ◌∷◌, ◌++◌, length, take, drop, Outcome, ok, err, panic, ◌>>=◌, ◌≡◌,
  refl,
}
use blackswan_harness.Prelude.Decimal.{to_string, to_string03, parse_decimal}
use blackswan_harness.Fix.Fields.{soh, tag_begin_string, tag_body_length, tag_checksum}
use blackswan_harness.Prelude.Scan.{position, split}

pub data ParseError : Type 0 where
  empty missing_soh malformed_tag : ParseError

-- A tag, a `u32`, and its value.
abbrev pub Field : Type 0
Field = ℕ × Bytes

abbrev pub u32_mod : ℕ
u32_mod = 2 ^ 32

pub record FixMessage : Type 0 where
  pub fields : List Field

-- `FixMessage::get`: the first value of the tag.
unfoldable pub find_tag : ℕ → List Field → Option Bytes
find_tag tag [] = none
find_tag tag ((t, v) ∷ fs) = if t == tag then some v else find_tag tag fs

unfoldable pub get : FixMessage → ℕ → Option Bytes
unfolding find_tag
get msg tag = find_tag tag msg.fields

-- `FixMessage::is`.
unfoldable pub has : FixMessage → ℕ → Bytes → Bool
unfolding get bytes_eq
has msg tag expected = elim (get msg tag) [ none ↦ false | some v ↦ bytes_eq v expected ]

pub parse_field : Bytes → Outcome ParseError Field
parse_field field = elim (position b'=' field) [
  | none ↦ err malformed_tag
  | some eq ↦ elim (parse_decimal u32_mod (take eq field)) [
    | none ↦ err malformed_tag
    | some tag ↦ ok (tag, drop (suc eq) field)
  ]
]

-- The loop over the pieces. An empty piece is skipped.
pub parse_fields : List Bytes → Outcome ParseError (List Field)
parse_fields [] = ok []
parse_fields ([] ∷ pieces) = parse_fields pieces
parse_fields ((c ∷ s) ∷ pieces) = do
  field ← parse_field (c ∷ s)
  fields ← parse_fields pieces
  ok (field ∷ fields)

pub some_fields : List Field → Outcome ParseError FixMessage
some_fields [] = err missing_soh
some_fields (f ∷ fs) = ok (record { fields = f ∷ fs })

pub parse : Bytes → Outcome ParseError FixMessage
parse [] = err empty
parse (c ∷ s) = do fields ← parse_fields (split soh (c ∷ s)); some_fields fields

unfoldable pub checksum_from : ℕ → Bytes → ℕ
checksum_from acc [] = acc
checksum_from acc (b ∷ s) = checksum_from ((acc + b) % 256) s

unfoldable pub compute_checksum : Bytes → ℕ
compute_checksum s = checksum_from 0 s

pub format_checksum : ℕ → Bytes
format_checksum sum = to_string03 sum

-- `tag=value` and the separator.
unfoldable pub write_field : ℕ → Bytes → Bytes
write_field t v = to_string t ++ b'=' ∷ (v ++ soh ∷ [])

unfoldable pub is_structural : ℕ → Bool
is_structural t = t == tag_begin_string || t == tag_body_length || t == tag_checksum

-- The loop of `set_field` over the parsed fields.
unfoldable pub write_body : ℕ → Bytes → List Field → Bytes
write_body tag new_value [] = []
write_body tag new_value ((t, v) ∷ fs) =
    let rest = write_body tag new_value fs in
    if is_structural t then rest else write_field t (if t == tag then new_value else v) ++ rest

-- The message around a body, up to its checksum.
unfoldable pub write_header : Bytes → Bytes → Bytes
write_header begin_string body =
    codes "8=" ++ (begin_string ++ soh ∷ (codes "9=" ++ (to_string (length body) ++ soh ∷ body)))

unfoldable pub write_message : Bytes → Bytes → Bytes
write_message begin_string body =
    let full = write_header begin_string body in
    full ++ (codes "10=" ++ (to_string03 (compute_checksum full) ++ soh ∷ []))

unfoldable pub set_field : Bytes → ℕ → Bytes → Outcome ParseError Bytes
set_field bytes tag new_value = do
  parsed ← parse bytes
  elim (get parsed tag_begin_string) [
    | none ↦ panic
    | some begin_string ↦ ok (write_message begin_string (write_body tag new_value parsed.fields))
  ]
