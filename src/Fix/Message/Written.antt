-- ===== src/Fix/Message/Written.antt =====
-- Fields that are written are read back.
use blackswan_harness.Prelude.{
  ℕ, ◌<◌, Bytes, List, [], ◌∷◌, ◌++◌, append_assoc, take-append, drop-append_suc, ok, ◌>>=◌, ◌≡◌,
  ◌≢◌, refl, sym, ◌∙◌, arith, All, All-append,
}
use blackswan_harness.Prelude.Decimal.{to_string}
use blackswan_harness.Prelude.Decimal.RoundTrip.{
  IsDigit, to_string-IsDigit, parse_decimal-to_string,
}
use blackswan_harness.Fix.Fields.{soh}
use blackswan_harness.Prelude.Scan.{position-Lacks, split, split-Lacks, Lacks}
use blackswan_harness.Fix.Message.{
  Field, u32_mod, parse_field, parse_fields, some_fields, parse, write_field,
}
use blackswan_harness.Fix.Message.Parsed.{IsField}
use blackswan_harness.Fix.Message.Encode.{IsDigit-Lacks}

-- The text of a list of fields.
unfoldable pub write_fields : List Field → Bytes
write_fields [] = []
write_fields ((t, v) ∷ fs) = write_field t v ++ write_fields fs

-- A field's text without its separator.
abbrev pair : ℕ → Bytes → Bytes
pair t v = to_string t ++ b'=' ∷ v

IsDigit-ne-eq : (s : Bytes) → All IsDigit s → Lacks b'=' s
IsDigit-ne-eq [] d = tt
IsDigit-ne-eq (c ∷ s) d = (omega arith, IsDigit-ne-eq s d.1)

All-Lacks-append : (b : ℕ) (s t : Bytes) → Lacks b s → Lacks b t → Lacks b (s ++ t)
All-Lacks-append b = All-append (λ c. c ≢ b)

pair-Lacks : (t : ℕ) (v : Bytes) → Lacks soh v → Lacks soh (pair t v)
pair-Lacks t v h =
    All-Lacks-append soh (to_string t) (b'=' ∷ v)
      (IsDigit-Lacks soh (to_string t) (omega arith) (to_string-IsDigit t)) (omega arith, h)

parse_field-pair : (t : ℕ) (v : Bytes) → t < u32_mod → parse_field (pair t v) ≡ ok (t, v)
unfolding parse_field
parse_field-pair t v h = rw (
  position-Lacks b'=' (to_string t) v (IsDigit-ne-eq (to_string t) (to_string-IsDigit t)),
  parse_field,
  take-append (to_string t) (b'=' ∷ v),
  parse_decimal-to_string u32_mod t h,
  drop-append_suc (to_string t) b'=' v,
)

parse_fields-cons :
    (piece : Bytes) (pieces : List Bytes)
    → piece ≢ []
    → parse_fields (piece ∷ pieces)
      ≡ (parse_field piece >>= λ f. parse_fields pieces >>= λ fs. ok (f ∷ fs))
unfolding parse_fields
parse_fields-cons [] pieces h = absurd (h refl)
parse_fields-cons (c ∷ s) pieces h = refl

append-cons-ne-nil : (s : Bytes) (c : ℕ) (t : Bytes) → s ++ c ∷ t ≢ []
append-cons-ne-nil [] c t e = cc
append-cons-ne-nil (d ∷ s) c t e = cc

pair-ne-nil : (t : ℕ) (v : Bytes) → pair t v ≢ []
pair-ne-nil t v = append-cons-ne-nil (to_string t) b'=' v

split-write_field :
    (t : ℕ) (v more : Bytes)
    → Lacks soh v
    → split soh (write_field t v ++ more) ≡ pair t v ∷ split soh more
unfolding write_field
split-write_field t v more h =
    let regroup : (to_string t ++ b'=' ∷ (v ++ soh ∷ [])) ++ more ≡ pair t v ++ soh ∷ more =
      simp append_assoc in
    rw regroup (split-Lacks soh (pair t v) more (pair-Lacks t v h))

parse_fields-write_fields :
    (fs : List Field) → All IsField fs → parse_fields (split soh (write_fields fs)) ≡ ok fs
unfolding write_fields split parse_fields
parse_fields-write_fields [] h = refl
parse_fields-write_fields ((t, v) ∷ fs) h = rw (
  split-write_field t v (write_fields fs) h.0.1,
  parse_fields-cons _ (split soh (write_fields fs)) (pair-ne-nil t v),
  parse_field-pair t v h.0.0,
  parse_fields-write_fields fs h.1,
)

parse-some : (s : Bytes) → s ≢ [] → parse s ≡ (parse_fields (split soh s) >>= some_fields)
unfolding parse
parse-some [] h = absurd (h refl)
parse-some (c ∷ s) h = refl

some_fields-cons :
    (f : Field) (fs : List Field) → some_fields (f ∷ fs) ≡ ok (record { fields = f ∷ fs })
unfolding some_fields
some_fields-cons f fs = refl

write_fields-ne-nil : (f : Field) (fs : List Field) → write_fields (f ∷ fs) ≢ []
unfolding write_fields write_field
write_fields-ne-nil (t, v) fs e =
    append-cons-ne-nil (to_string t) b'=' ((v ++ soh ∷ []) ++ write_fields fs)
      (sym (append_assoc (to_string t) _ _) ∙ e)

-- Fields with tags below 2 ^ 32 and values without separators are read back from their text.
pub parse-write_fields :
    (f : Field) (fs : List Field)
    → All IsField (f ∷ fs)
    → parse (write_fields (f ∷ fs)) ≡ ok (record { fields = f ∷ fs })
parse-write_fields f fs h =
    rw
      (
        parse-some (write_fields (f ∷ fs)) (write_fields-ne-nil f fs),
        parse_fields-write_fields (f ∷ fs) h,
      )
      (some_fields-cons f fs)
