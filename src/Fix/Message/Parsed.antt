-- ===== src/Fix/Message/Parsed.antt =====
-- What parsing returns: tags below 2 ^ 32 and values without separators.
use blackswan_harness.Prelude.{
  ℕ, suc, ◌<◌, ◌==◌, Bool-cases, Bytes, some, Option-cases, List, [], ◌∷◌, take, drop, ok,
  >>=-eq-ok, ◌≡◌, inl, inr, arith, All,
}
use blackswan_harness.Prelude.Decimal.{parse_decimal}
use blackswan_harness.Prelude.Decimal.RoundTrip.{parse_decimal-lt}
use blackswan_harness.Fix.Fields.{soh}
use blackswan_harness.Prelude.Scan.{position, split, Lacks, All-Lacks-split, Lacks-drop}
use blackswan_harness.Fix.Message.{
  FixMessage, Field, u32_mod, find_tag, parse_field, parse_fields, some_fields, parse,
}

abbrev pub IsField : Field → Type 0
IsField f = (f.0 < u32_mod) × Lacks soh f.1

parse_field-IsField : (s : Bytes) (f : Field) → Lacks soh s → parse_field s ≡ ok f → IsField f
unfolding parse_field
parse_field-IsField s f lacks h = elim (Option-cases (position b'=' s)) [
  | inl e ↦ cc (rw (e, parse_field) at h)
  | inr (i, e) ↦ elim (Option-cases (parse_decimal u32_mod (take i s))) [
    | inl bad ↦ cc (rw (e, bad, parse_field) at h)
    | inr (t, good) ↦
        let same : (t, drop (suc i) s) ≡ f = cc (rw (e, good, parse_field) at h) in
        rw (← same)
          (parse_decimal-lt u32_mod (take i s) t (omega arith) good, Lacks-drop soh (suc i) s lacks)
  ]
]

parse_fields-IsField :
    (pieces : List Bytes) (fs : List Field)
    → All (Lacks soh) pieces
    → parse_fields pieces ≡ ok fs
    → All IsField fs
unfolding parse_fields
parse_fields-IsField [] fs lacks h = let none_left : [] ≡ fs = cc in rw (← none_left) tt
parse_fields-IsField ([] ∷ pieces) fs lacks h = parse_fields-IsField pieces fs lacks.1 h
parse_fields-IsField ((c ∷ s) ∷ pieces) fs lacks h =
    let (f, first, rest) = >>=-eq-ok (parse_field (c ∷ s)) _ h in
    let (gs, others, made) = >>=-eq-ok (parse_fields pieces) _ rest in
    let same : f ∷ gs ≡ fs = cc in
    rw (← same)
      (parse_field-IsField (c ∷ s) f lacks.0 first, parse_fields-IsField pieces gs lacks.1 others)

pub some_fields-ok :
    (fs : List Field) (msg : FixMessage) → some_fields fs ≡ ok msg → msg.fields ≡ fs
unfolding some_fields
some_fields-ok [] msg h = cc
some_fields-ok (f ∷ fs) msg h = ground arith

pub parse-IsField : (s : Bytes) (msg : FixMessage) → parse s ≡ ok msg → All IsField msg.fields
unfolding parse
parse-IsField [] msg h = cc
parse-IsField (c ∷ s) msg h =
    let (fs, parsed, made) = >>=-eq-ok (parse_fields (split soh (c ∷ s))) _ h in
    rw (some_fields-ok fs msg made) (parse_fields-IsField _ fs (All-Lacks-split soh (c ∷ s)) parsed)

pub find_tag-IsField :
    (t : ℕ) (fs : List Field) (v : Bytes) → All IsField fs → find_tag t fs ≡ some v → Lacks soh v
unfolding find_tag
find_tag-IsField t [] v valid h = cc
find_tag-IsField t ((u, w) ∷ fs) v valid h = elim (Bool-cases (u == t)) [
  | inl here ↦ let same : w ≡ v = cc (rw here at h) in rw (← same) valid.0.1
  | inr other ↦ find_tag-IsField t fs v valid.1 (rw other at h)
]
