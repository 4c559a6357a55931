-- ===== src/Fix/Message/Safe.antt =====
-- Where the `expect` of `set_field` does not fire.
use blackswan_harness.Prelude.{
  ℕ, Bytes, some, Option-cases, List, [], ◌∷◌, take, ok, panic, Outcome-cases, ◌>>=◌, >>=-eq-ok,
  ◌≡◌, ◌≢◌, refl, sym, ◌∙◌, ap, inl, inr, arith,
}
use blackswan_harness.Prelude.Decimal.{parse_decimal}
use blackswan_harness.Fix.Fields.{soh, tag_begin_string}
use blackswan_harness.Prelude.Scan.{position, split, split-cons}
use blackswan_harness.Fix.Message.Parsed.{some_fields-ok}
use blackswan_harness.Fix.Message.{
  FixMessage, Field, u32_mod, find_tag, get, parse_field, parse_fields, some_fields, parse,
  set_field,
}

parse_field-ne-panic : (s : Bytes) → parse_field s ≢ panic
unfolding parse_field
parse_field-ne-panic s h = elim (Option-cases (position b'=' s)) [
  | inl e ↦ cc (rw (e, parse_field) at h)
  | inr (i, e) ↦ elim (Option-cases (parse_decimal u32_mod (take i s))) [
    | inl bad ↦ cc (rw (e, bad, parse_field) at h)
    | inr (t, good) ↦ cc (rw (e, good, parse_field) at h)
  ]
]

parse_fields-ne-panic : (pieces : List Bytes) → parse_fields pieces ≢ panic
unfolding parse_fields
parse_fields-ne-panic [] h = cc
parse_fields-ne-panic ([] ∷ pieces) h = parse_fields-ne-panic pieces h
parse_fields-ne-panic ((c ∷ s) ∷ pieces) h = elim (Outcome-cases (parse_field (c ∷ s))) [
  | inl (f, e) ↦ elim (Outcome-cases (parse_fields pieces)) [
    | inl (fs, e') ↦ cc (rw (e, e') at h)
    | inr (inl (x, e')) ↦ cc (rw (e, e') at h)
    | inr (inr e') ↦ parse_fields-ne-panic pieces e'
  ]
  | inr (inl (x, e)) ↦ cc (rw e at h)
  | inr (inr e) ↦ parse_field-ne-panic (c ∷ s) e
]

some_fields-ne-panic : (fs : List Field) → some_fields fs ≢ panic
unfolding some_fields
some_fields-ne-panic [] h = cc
some_fields-ne-panic (f ∷ fs) h = cc

-- Parsing never panics.
pub parse-ne-panic : (s : Bytes) → parse s ≢ panic
unfolding parse
parse-ne-panic [] h = cc
parse-ne-panic (c ∷ s) h = elim (Outcome-cases (parse_fields (split soh (c ∷ s)))) [
  | inl (fs, e) ↦ some_fields-ne-panic fs (rw (e, parse) at h)
  | inr (inl (x, e)) ↦ cc (rw (e, parse) at h)
  | inr (inr e) ↦ parse_fields-ne-panic _ e
]

-- `set_field` panics only on a message that parses and has no tag 8.
set_field-ne-panic :
    (s : Bytes) (tag : ℕ) (v : Bytes)
    → ((msg : FixMessage)
        → parse s ≡ ok msg
        → (begin : Bytes) × (find_tag tag_begin_string msg.fields ≡ some begin))
    → set_field s tag v ≢ panic
unfolding set_field get
set_field-ne-panic s tag v has h = elim (Outcome-cases (parse s)) [
  | inl (msg, e) ↦ let (begin, found) = has msg e in cc (rw (e, set_field, ◌>>=◌, get, found) at h)
  | inr (inl (x, e)) ↦ cc (rw (e, set_field) at h)
  | inr (inr e) ↦ parse-ne-panic s e
]

tag8_field : (p : Bytes) → parse_field (b'8' ∷ b'=' ∷ p) ≡ ok (tag_begin_string, p)
unfolding parse_field position parse_decimal
tag8_field p = refl

tag8_first :
    (p : Bytes) (ps : List Bytes) (fs : List Field)
    → parse_fields ((b'8' ∷ b'=' ∷ p) ∷ ps) ≡ ok fs
    → (gs : List Field) × (fs ≡ (tag_begin_string, p) ∷ gs)
unfolding parse_fields
tag8_first p ps fs h =
    let (f, first, rest) = >>=-eq-ok (parse_field (b'8' ∷ b'=' ∷ p)) _ h in
    let (gs, others, made) = >>=-eq-ok (parse_fields ps) _ rest in
    let same : f ≡ (tag_begin_string, p) = cc (tag8_field p) in (gs, ground (arith, same))

tag8_parsed :
    (t : Bytes) (msg : FixMessage)
    → parse (b'8' ∷ b'=' ∷ t) ≡ ok msg
    → (begin : Bytes) × (find_tag tag_begin_string msg.fields ≡ some begin)
unfolding parse find_tag
tag8_parsed t msg h =
    let (p, ps, e, e') = split-cons soh b'=' t refl in
    let (q, qs, d, d') = split-cons soh b'8' (b'=' ∷ t) refl in
    let pieces : split soh (b'8' ∷ b'=' ∷ t) ≡ (b'8' ∷ b'=' ∷ p) ∷ ps = cc in
    let (fs, parsed, made) = >>=-eq-ok (parse_fields (split soh (b'8' ∷ b'=' ∷ t))) some_fields h in
    let (gs, cons) = tag8_first p ps fs (ap parse_fields (sym pieces) ∙ parsed) in
    (p, ap (find_tag tag_begin_string) (some_fields-ok fs msg made ∙ cons))

pub set_field-ne-panic_tag8 : (tag : ℕ) (v t : Bytes) → set_field (b'8' ∷ b'=' ∷ t) tag v ≢ panic
set_field-ne-panic_tag8 tag v t = set_field-ne-panic (b'8' ∷ b'=' ∷ t) tag v (tag8_parsed t)

-- Less than the tag 8 does not parse.
pub set_field-ne-panic_short :
    (tag : ℕ) (v : Bytes) → (set_field [] tag v ≢ panic) × (set_field (b'8' ∷ []) tag v ≢ panic)
unfolding parse parse_fields parse_field position split
set_field-ne-panic_short tag v =
    (set_field-ne-panic [] tag v (λ msg h. cc), set_field-ne-panic (b'8' ∷ []) tag v (λ msg h. cc))
