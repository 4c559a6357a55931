-- ===== src/Fix/Framing/Frames.antt =====
-- Framing and `set_field`: what is written is framed as one message, and what is framed is safe to
-- rewrite.
use blackswan_harness.Prelude.{
  ℕ, zero, suc, ◌+◌, ◌%◌, ◌≤◌, ◌<◌, Bool, true, false, ◌&&◌, ltb, leb-eq-false, ltb-eq-false,
  Bool-cases, Bytes, codes, some, [], ◌∷◌, ◌++◌, length, length-append, take, ok, panic, ◌≡◌, ◌≢◌,
  refl, ◌∙◌, sym, ap, subst, inl, inr, arith,
}
use blackswan_harness.Prelude.Decimal.{to_string}
use blackswan_harness.Prelude.Decimal.RoundTrip.{parse_decimal-to_string, to_string-IsDigit}
use blackswan_harness.Fix.Fields.{soh, tag_begin_string}
use blackswan_harness.Prelude.Scan.{starts_with}
use blackswan_harness.Fix.Message.{write_body, set_field}
use blackswan_harness.Fix.Message.Parsed.{parse-IsField, find_tag-IsField}
use blackswan_harness.Fix.Message.Encode.{
  IsDigit-Lacks, trailer, write_message-tagged, length-write_message, set_field-ok,
}
use blackswan_harness.Fix.Message.Safe.{set_field-ne-panic_tag8, set_field-ne-panic_short}
use blackswan_harness.Fix.Framing.{
  find_body, find_complete_message, usize_mod, checksum_trailer_len,
}
use blackswan_harness.Fix.Framing.Shape.{tagged, counted, header_len, find-counted}

and-false : (b : Bool) → (b && false) ≡ false
and-false true = refl
and-false false = refl

find_body-fits :
    (checks : Bool) (buf : Bytes) (h n m : ℕ)
    → m ≡ h + n + checksum_trailer_len
    → m < usize_mod
    → m ≤ length buf
    → find_body checks buf h n ≡ ok (some m)
unfolding find_body
find_body-fits checks buf h n m e small room =
    let whole : m % usize_mod ≡ m = omega arith in
    rw (
      ← e,
      leb-eq-false usize_mod m small,
      and-false checks,
      whole,
      ltb-eq-false (length buf) m room,
    )

-- What `set_field` writes is framed as one message of its whole length, whatever bytes follow it, if
-- that length fits the machine word.
pub set_field-framed :
    (checks : Bool) (s : Bytes) (tag : ℕ) (v out rest : Bytes)
    → set_field s tag v ≡ ok out
    → length out < usize_mod
    → find_complete_message checks (out ++ rest) ≡ ok (some (length out))
set_field-framed checks s tag v out rest h small =
    let (msg, begin, parsed, found, made) = set_field-ok s tag v out h in
    let body = write_body tag v msg.fields in
    let digits = to_string (length body) in
    let lacks =
      find_tag-IsField tag_begin_string msg.fields begin (parse-IsField s msg parsed) found in
    let same : out ++ rest ≡ tagged begin (counted digits (body ++ (trailer begin body ++ rest))) =
      ap (λ l. l ++ rest) made ∙ write_message-tagged begin body rest in
    let len : length out ≡ header_len begin digits + length body + checksum_trailer_len =
      ap length made ∙ length-write_message begin body in
    ap (find_complete_message checks) same
    ∙ find-counted checks begin digits (body ++ (trailer begin body ++ rest)) (length body) lacks
        (IsDigit-Lacks soh digits (omega arith) (to_string-IsDigit (length body)))
        (parse_decimal-to_string usize_mod (length body) (omega (arith, len)))
    ∙ find_body-fits checks _ (header_len begin digits) (length body) (length out) len small
        (subst (λ l. length out ≤ length l) same (omega (arith, length-append out rest)))

-- What framing finds begins with the tag 8, as far as it goes.
starts_with-tag8 :
    (s : Bytes) → starts_with s (codes "8=") ≡ true → (t : Bytes) × (s ≡ b'8' ∷ b'=' ∷ t)
unfolding starts_with
starts_with-tag8 [] h = cc
starts_with-tag8 (c ∷ []) h = ground arith
starts_with-tag8 (c ∷ d ∷ t) h = (t, ground arith)

-- A message that framing has found can be rewritten: `set_field` does not panic on it.
pub framed-ne-panic :
    (checks : Bool) (buf : Bytes) (n tag : ℕ) (v : Bytes)
    → find_complete_message checks buf ≡ ok (some n)
    → set_field (take n buf) tag v ≢ panic
unfolding find_complete_message
framed-ne-panic checks buf n tag v h = elim (Bool-cases (ltb (length buf) 2)) [
  | inl short ↦ cc (rw (short, find_complete_message) at h)
  | inr long ↦ elim (Bool-cases (starts_with buf (codes "8="))) [
    | inr other ↦ cc (rw (long, other, find_complete_message) at h)
    | inl tag8 ↦
        let (t, e) = starts_with-tag8 buf tag8 in
        subst (λ b. set_field (take n b) tag v ≢ panic) (sym e) (prefix n t)
  ]
]
  where
    prefix : (n : ℕ) (t : Bytes) → set_field (take n (b'8' ∷ b'=' ∷ t)) tag v ≢ panic
    prefix zero t = (set_field-ne-panic_short tag v).0
    prefix (suc zero) t = (set_field-ne-panic_short tag v).1
    prefix (suc (suc n)) t = set_field-ne-panic_tag8 tag v (take n t)
