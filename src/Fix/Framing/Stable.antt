-- ===== src/Fix/Framing/Stable.antt =====
-- What framing has decided, more bytes do not change; and a message that it finds lies in the buffer.
use blackswan_harness.Prelude.{
  ℕ, suc, ◌+◌, ◌-◌, ◌%◌, ◌≤◌, ◌<◌, Bool, true, ◌&&◌, ◌==◌, ltb, leb, leb→le, le→leb, leb-false,
  ltb-eq-false, leb-eq-false, ltb-false, Bool-cases, Bytes, codes, Option, none, some, Option-cases,
  [], ◌∷◌, ◌++◌, length, drop, length-append, length-drop, take-append_le, drop-append_le, Outcome,
  ok, err, panic, ◌≡◌, refl, ap, inl, inr, arith,
}
use blackswan_harness.Prelude.Decimal.{parse_decimal}
use blackswan_harness.Fix.Fields.{soh}
use blackswan_harness.Prelude.Scan.{position, position-append, position-lt, starts_with}
use blackswan_harness.Fix.Message.{ParseError}
use blackswan_harness.Fix.Framing.{
  slice, find_body, find_length, find_complete_message, usize_mod, checksum_trailer_len,
}

-- A message has been found, or refused.
abbrev pub IsSettled : Outcome ParseError (Option ℕ) → Type 0
IsSettled (ok none) = ⊥
IsSettled (ok (some n)) = Unit
IsSettled (err e) = Unit
IsSettled panic = ⊥

pub starts_with-append :
    (s t p : Bytes) → length p ≤ length s → starts_with (s ++ t) p ≡ starts_with s p
unfolding starts_with
starts_with-append [] t [] h = ground arith
starts_with-append (c ∷ s) t [] h = refl
starts_with-append [] t (q ∷ p) h = absurd (omega arith)
starts_with-append (c ∷ s) t (q ∷ p) h =
    ap (λ b. (c == q) && b) (starts_with-append s t p (omega arith))

find_body-append :
    (checks : Bool) (buf more : Bytes) (h b : ℕ)
    → IsSettled (find_body checks buf h b)
    → find_body checks (buf ++ more) h b ≡ find_body checks buf h b
unfolding find_body
find_body-append checks buf more h b s =
    elim (Bool-cases (checks && leb usize_mod (h + b + checksum_trailer_len))) [
      | inl over ↦ rw over
      | inr fits ↦
          elim (Bool-cases (ltb (length buf) ((h + b + checksum_trailer_len) % usize_mod))) [
            | inl short ↦ absurd (rw (fits, short) at s)
            | inr whole ↦ rw (
              fits,
              whole,
              ltb-eq-false (length (buf ++ more)) ((h + b + checksum_trailer_len) % usize_mod)
                  (omega (arith, length-append buf more, ltb-false _ _ whole)),
            )
          ]
    ]

pub slice-append :
    (from to : ℕ) (s t : Bytes) → to ≤ length s → slice from to (s ++ t) ≡ slice from to s
unfolding slice
slice-append from to s t h = elim (Bool-cases (leb from to)) [
  | inl ordered ↦
      let inside : to ≤ length (s ++ t) = omega (arith, length-append s t) in
      let from_le : from ≤ length s = omega (arith, leb→le from to ordered) in
      let left : to - from ≤ length (drop from s) = omega (arith, length-drop from s) in
      rw (
        ordered,
        le→leb to (length (s ++ t)) inside,
        le→leb to (length s) h,
        drop-append_le from s t from_le,
        take-append_le (to - from) (drop from s) t left,
      )
  | inr disordered ↦ rw disordered
]

-- A text too short for a tag holds no length.
find_length_short :
    (checks : Bool) (buf : Bytes) (e : ℕ) (rest : Bytes)
    → length rest < 2
    → ¬ IsSettled (find_length checks buf e rest)
unfolding find_length slice
find_length_short checks buf e rest short s = elim (Option-cases (position soh rest)) [
  | inl none_yet ↦ rw (leb-eq-false 2 (length rest) short, none_yet) at s
  | inr (i, found) ↦
      let early : i < 2 = omega (arith, position-lt soh rest i found) in
      rw (leb-eq-false 2 (length rest) short, found, leb-eq-false 2 i early) at s
]

find_length-append :
    (checks : Bool) (buf more : Bytes) (e : ℕ) (rest : Bytes)
    → IsSettled (find_length checks buf e rest)
    → find_length checks (buf ++ more) e (rest ++ more) ≡ find_length checks buf e rest
unfolding find_length
find_length-append checks buf more e rest s = elim (Bool-cases (leb 2 (length rest))) [
  | inr short ↦ absurd (find_length_short checks buf e rest (leb-false _ _ short) s)
  | inl long ↦
      let long' : leb 2 (length (rest ++ more)) ≡ true =
        le→leb 2 (length (rest ++ more))
          (omega (arith, length-append rest more, leb→le 2 (length rest) long)) in
      let same = starts_with-append rest more (codes "9=") (leb→le 2 (length rest) long) in
      elim (Bool-cases (starts_with rest (codes "9="))) [
        | inr other ↦ rw (long, long', same, other)
        | inl tag9 ↦ elim (Option-cases (position soh rest)) [
          | inl none_yet ↦ absurd (rw (long, tag9, none_yet) at s)
          | inr (i, found) ↦
              let found' = position-append soh rest more i found in
              let same_slice =
                slice-append 2 i rest more (omega (arith, position-lt soh rest i found)) in
              elim (Option-cases (slice 2 i rest)) [
                | inl cut ↦ absurd (rw (long, tag9, found, cut) at s)
                | inr (digits, cut) ↦ elim (Option-cases (parse_decimal usize_mod digits)) [
                  | inl bad ↦ rw (long, long', same, tag9, found, found', same_slice, cut, bad)
                  | inr (n, good) ↦
                      rw (long, long', same, tag9, found, found', same_slice, cut, good)
                        (find_body-append checks buf more (e + 1 + i + 1) n
                          (rw (long, tag9, found, cut, good) at s))
                ]
              ]
        ]
      ]
]

-- Once framing has found or refused the message at the start of a buffer, no bytes received later
-- change the answer.
pub find_complete_message-append :
    (checks : Bool) (buf more : Bytes)
    → IsSettled (find_complete_message checks buf)
    → find_complete_message checks (buf ++ more) ≡ find_complete_message checks buf
unfolding find_complete_message
find_complete_message-append checks buf more s = elim (Bool-cases (ltb (length buf) 2)) [
  | inl short ↦ absurd (rw short at s)
  | inr long ↦
      let long' =
        ltb-eq-false (length (buf ++ more)) 2
          (omega (arith, length-append buf more, ltb-false _ _ long)) in
      let same = starts_with-append buf more (codes "8=") (ltb-false _ _ long) in
      elim (Bool-cases (starts_with buf (codes "8="))) [
        | inr other ↦ rw (long, long', same, other)
        | inl tag8 ↦ elim (Option-cases (position soh buf)) [
          | inl none_yet ↦ absurd (rw (long, tag8, none_yet) at s)
          | inr (i, found) ↦
              let found' = position-append soh buf more i found in
              rw
                (
                  long,
                  long',
                  same,
                  tag8,
                  found,
                  found',
                  drop-append_le (suc i) buf more (position-lt soh buf i found),
                )
                (find_length-append checks buf more i (drop (suc i) buf)
                  (rw (long, tag8, found) at s))
        ]
      ]
]
