-- ===== src/Fix/Framing/Bounds.antt =====
-- The size of a message that framing finds.
use blackswan_harness.Prelude.{
  ℕ, suc, ◌+◌, ◌%◌, ◌≤◌, true, not, ◌&&◌, ltb, leb, leb-false, ltb-false, Bool-cases, Option-cases,
  Bytes, codes, Option, some, length, drop, Outcome, ok, ◌≡◌, inl, inr, arith,
}
use blackswan_harness.Prelude.Decimal.{parse_decimal}
use blackswan_harness.Fix.Fields.{soh}
use blackswan_harness.Prelude.Scan.{position, starts_with}
use blackswan_harness.Fix.Message.{ParseError}
use blackswan_harness.Fix.Framing.{
  slice, find_body, find_length, find_complete_message, usize_mod, checksum_trailer_len,
}

some-inj : {n m : ℕ} → ◌≡◌ {A = Outcome ParseError (Option ℕ)} (ok (some n)) (ok (some m)) → n ≡ m
some-inj e = cc

find_body-bounds :
    (buf : Bytes) (h b n : ℕ)
    → find_body true buf h b ≡ ok (some n)
    → (checksum_trailer_len ≤ n) × (n ≤ length buf)
unfolding find_body
find_body-bounds buf h b n e = elim (Bool-cases (leb usize_mod (h + b + checksum_trailer_len))) [
  | inl over ↦ cc (rw (over, find_body) at e)
  | inr fits ↦ elim (Bool-cases (ltb (length buf) ((h + b + checksum_trailer_len) % usize_mod))) [
    | inl short ↦ cc (rw (fits, short, find_body) at e)
    | inr whole ↦
        let same = some-inj (rw (fits, whole, find_body) at e) in
        let exact : (h + b + checksum_trailer_len) % usize_mod ≡ h + b + checksum_trailer_len =
          omega (arith, leb-false _ _ fits) in
        (omega (arith, same, exact), omega (arith, same, ltb-false _ _ whole))
  ]
]

find_length-bounds :
    (buf : Bytes) (t : ℕ) (rest : Bytes) (n : ℕ)
    → find_length true buf t rest ≡ ok (some n)
    → (checksum_trailer_len ≤ n) × (n ≤ length buf)
unfolding find_length
find_length-bounds buf t rest n e =
    elim (Bool-cases (leb 2 (length rest) && not (starts_with rest (codes "9=")))) [
      | inl bad ↦ cc (rw (bad, find_length) at e)
      | inr good ↦ elim (Option-cases (position soh rest)) [
        | inl none_yet ↦ cc (rw (good, none_yet, find_length) at e)
        | inr (i, found) ↦ elim (Option-cases (slice 2 i rest)) [
          | inl cut ↦ cc (rw (good, found, cut, find_length) at e)
          | inr (digits, cut) ↦ elim (Option-cases (parse_decimal usize_mod digits)) [
            | inl bad ↦ cc (rw (good, found, cut, bad, find_length) at e)
            | inr (b, number) ↦
                find_body-bounds buf (t + 1 + i + 1) b n
                  (rw (good, found, cut, number, find_length) at e)
          ]
        ]
      ]
    ]

-- With overflow checks, a message that framing finds has at least the seven bytes of a checksum field
-- and lies within the buffer.
pub find_complete_message-bounds :
    (buf : Bytes) (n : ℕ)
    → find_complete_message true buf ≡ ok (some n)
    → (checksum_trailer_len ≤ n) × (n ≤ length buf)
unfolding find_complete_message
find_complete_message-bounds buf n e = elim (Bool-cases (ltb (length buf) 2)) [
  | inl short ↦ cc (rw (short, find_complete_message) at e)
  | inr long ↦ elim (Bool-cases (starts_with buf (codes "8="))) [
    | inr other ↦ cc (rw (long, other, find_complete_message) at e)
    | inl tag8 ↦ elim (Option-cases (position soh buf)) [
      | inl none_yet ↦ cc (rw (long, tag8, none_yet, find_complete_message) at e)
      | inr (i, found) ↦
          find_length-bounds buf i (drop (suc i) buf) n
            (rw (long, tag8, found, find_complete_message) at e)
    ]
  ]
]
