-- ===== src/Fix/Message/RoundTrip.antt =====
-- What `set_field` writes is read back.
use blackswan_harness.Prelude.{ℕ, ◌==◌, if◌then◌else◌, Bytes, List, [], ◌∷◌, ◌++◌, length}
use blackswan_harness.Prelude.Decimal.{to_string, to_string03}
use blackswan_harness.Fix.Message.{Field, write_header, is_structural, compute_checksum}
use blackswan_harness.Fix.Message.Written.{write_fields}

-- The fields that `set_field` keeps, with the new value where the tag is.
unfoldable pub replaced : ℕ → Bytes → List Field → List Field
replaced tag v [] = []
replaced tag v ((t, w) ∷ fs) =
    let rest = replaced tag v fs in
    if is_structural t then rest else (t, if t == tag then v else w) ∷ rest

-- The fields of a message that `set_field` writes.
abbrev pub message_fields : Bytes → List Field → List Field
message_fields begin kept =
    let body = write_fields kept in
    (8, begin)
    ∷ (9, to_string (length body))
    ∷ (kept ++ (10, to_string03 (compute_checksum (write_header begin body))) ∷ [])
