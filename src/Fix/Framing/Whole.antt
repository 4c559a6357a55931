-- ===== src/Fix/Framing/Whole.antt =====
-- Messages that framing takes as a whole, and what it says of their beginnings.
use blackswan_harness.Prelude.{
  ℕ, suc, ◌+◌, ◌%◌, ◌<◌, Bool, true, false, not, ◌&&◌, ltb, leb, leb→le, le→leb, leb-false,
  leb-eq-false, ltb-eq-false, ltb-false, Bool-cases, Bytes, codes, none, some, Option-cases, ◌++◌,
  length, drop, length-append, drop-append_le, Outcome-cases, ok, panic, ◌≡◌, ◌≢◌, refl, ◌∙◌, inl,
  inr, arith,
}
use blackswan_harness.Prelude.Decimal.{parse_decimal}
use blackswan_harness.Fix.Fields.{soh}
use blackswan_harness.Prelude.Scan.{position, position-append, position-lt, starts_with}
use blackswan_harness.Fix.Framing.{
  slice, find_body, find_length, find_complete_message, usize_mod, checksum_trailer_len,
}
use blackswan_harness.Fix.Framing.Bounds.{find_complete_message-bounds}
use blackswan_harness.Fix.Framing.Stable.{
  starts_with-append, slice-append, find_complete_message-append,
}

-- Framing finds exactly the message, alone in the buffer, and with overflow checks: its length does
-- not wrap.
abbrev pub IsFramed : Bytes → Type 0
IsFramed m = find_complete_message true m ≡ ok (some (length m))

and-false : (b : Bool) → (b && false) ≡ false
and-false true = refl
and-false false = refl

module _ (checks : Bool) (buf more : Bytes) where
  find_body-panic :
      (h b : ℕ) → find_body checks buf h b ≡ panic → find_body checks (buf ++ more) h b ≡ panic
  unfolding find_body
  find_body-panic h b e =
      elim (Bool-cases (checks && leb usize_mod (h + b + checksum_trailer_len))) [
        | inl over ↦ rw over
        | inr fits ↦
            elim (Bool-cases (ltb (length buf) ((h + b + checksum_trailer_len) % usize_mod))) [
              | inl short ↦ cc (rw (fits, short, find_body) at e)
              | inr whole ↦ cc (rw (fits, whole, find_body) at e)
            ]
      ]

  -- A text that ends before a tag, where framing panics.
  find_length-panic_short :
      (t : ℕ) (rest : Bytes) (n : ℕ)
      → length rest < 2
      → find_length checks buf t rest ≡ panic
      → find_length checks (buf ++ more) t (rest ++ more) ≢ ok (some n)
  unfolding find_length slice
  find_length-panic_short t rest n short e k = elim (Option-cases (position soh rest)) [
    | inl none_yet ↦ cc (rw (leb-eq-false 2 (length rest) short, none_yet, find_length) at e)
    | inr (i, found) ↦
        let early : i < 2 = omega (arith, position-lt soh rest i found) in
        let bad = leb 2 (length (rest ++ more)) && not (starts_with (rest ++ more) (codes "9=")) in
        elim (Bool-cases bad) [
          | inl other ↦ cc (rw (other, find_length) at k)
          | inr tag9 ↦ cc (
              rw (tag9, position-append soh rest more i found, leb-eq-false 2 i early, find_length)
                at k)
        ]
  ]

  find_length-panic :
      (t : ℕ) (rest : Bytes) (n : ℕ)
      → find_length checks buf t rest ≡ panic
      → find_length checks (buf ++ more) t (rest ++ more) ≢ ok (some n)
  unfolding find_length
  find_length-panic t rest n e k = elim (Bool-cases (leb 2 (length rest))) [
    | inr short ↦ find_length-panic_short t rest n (leb-false _ _ short) e k
    | inl long ↦
        let long' : leb 2 (length (rest ++ more)) ≡ true =
          le→leb 2 (length (rest ++ more))
            (omega (arith, length-append rest more, leb→le 2 (length rest) long)) in
        let same = starts_with-append rest more (codes "9=") (leb→le 2 (length rest) long) in
        elim (Bool-cases (starts_with rest (codes "9="))) [
          | inr other ↦ cc (rw (long, other, find_length) at e)
          | inl tag9 ↦ elim (Option-cases (position soh rest)) [
            | inl none_yet ↦ cc (rw (long, tag9, none_yet, find_length) at e)
            | inr (i, found) ↦
                let found' = position-append soh rest more i found in
                let same_slice =
                  slice-append 2 i rest more (omega (arith, position-lt soh rest i found)) in
                let k' = rw (long', same, tag9, found', same_slice, find_length) at k in
                let e' = rw (long, tag9, found, find_length) at e in
                elim (Option-cases (slice 2 i rest)) [
                  | inl cut ↦ cc (rw cut at k')
                  | inr (digits, cut) ↦ elim (Option-cases (parse_decimal usize_mod digits)) [
                    | inl bad ↦ cc (rw (cut, bad) at e')
                    | inr (b, good) ↦
                        let over = find_body-panic (t + 1 + i + 1) b (rw (cut, good) at e') in
                        cc (rw (cut, good, over) at k')
                  ]
                ]
          ]
        ]
  ]

  -- Where framing panics on the beginning of a buffer, it finds no message in the buffer.
  find_complete_message-panic :
      (n : ℕ)
      → find_complete_message checks buf ≡ panic
      → find_complete_message checks (buf ++ more) ≢ ok (some n)
  unfolding find_complete_message
  find_complete_message-panic n e k = elim (Bool-cases (ltb (length buf) 2)) [
    | inl short ↦ cc (rw (short, find_complete_message) at e)
    | inr long ↦
        let long' =
          ltb-eq-false (length (buf ++ more)) 2
            (omega (arith, length-append buf more, ltb-false _ _ long)) in
        let same = starts_with-append buf more (codes "8=") (ltb-false _ _ long) in
        elim (Bool-cases (starts_with buf (codes "8="))) [
          | inr other ↦ cc (rw (long, other, find_complete_message) at e)
          | inl tag8 ↦ elim (Option-cases (position soh buf)) [
            | inl none_yet ↦ cc (rw (long, tag8, none_yet, find_complete_message) at e)
            | inr (i, found) ↦
                find_length-panic i (drop (suc i) buf) n
                  (rw (long, tag8, found, find_complete_message) at e)
                  (rw
                    (
                      long',
                      same,
                      tag8,
                      position-append soh buf more i found,
                      drop-append_le (suc i) buf more (position-lt soh buf i found),
                      find_complete_message,
                    )
                    at k)
          ]
        ]
  ]

-- A build without overflow checks frames alike where one with them does not panic.
module _ (checks : Bool) (buf : Bytes) where
  find_body_unchecked :
      (h b : ℕ) → find_body true buf h b ≢ panic → find_body checks buf h b ≡ find_body true buf h b
  unfolding find_body
  find_body_unchecked h b calm = elim (Bool-cases (leb usize_mod (h + b + checksum_trailer_len))) [
    | inl over ↦ absurd (calm (rw (over, find_body) refl))
    | inr fits ↦ rw (fits, and-false checks) refl
  ]

  find_length_unchecked :
      (t : ℕ) (rest : Bytes)
      → find_length true buf t rest ≢ panic
      → find_length checks buf t rest ≡ find_length true buf t rest
  unfolding find_length
  find_length_unchecked t rest calm =
      elim (Bool-cases (leb 2 (length rest) && not (starts_with rest (codes "9=")))) [
        | inl bad ↦ rw bad refl
        | inr good ↦ elim (Option-cases (position soh rest)) [
          | inl none_yet ↦ rw (good, none_yet) refl
          | inr (i, found) ↦ elim (Option-cases (slice 2 i rest)) [
            | inl cut ↦ rw (good, found, cut) refl
            | inr (digits, cut) ↦ elim (Option-cases (parse_decimal usize_mod digits)) [
              | inl bad ↦ rw (good, found, cut, bad) refl
              | inr (b, number) ↦
                  rw (good, found, cut, number)
                    (find_body_unchecked (t + 1 + i + 1) b
                      (λ e. calm (rw (good, found, cut, number, find_length) e)))
            ]
          ]
        ]
      ]

  find_complete_message_unchecked :
      find_complete_message true buf ≢ panic
      → find_complete_message checks buf ≡ find_complete_message true buf
  unfolding find_complete_message
  find_complete_message_unchecked calm = elim (Bool-cases (ltb (length buf) 2)) [
    | inl short ↦ rw short refl
    | inr long ↦ elim (Bool-cases (starts_with buf (codes "8="))) [
      | inr other ↦ rw (long, other) refl
      | inl tag8 ↦ elim (Option-cases (position soh buf)) [
        | inl none_yet ↦ rw (long, tag8, none_yet) refl
        | inr (i, found) ↦
            rw (long, tag8, found)
              (find_length_unchecked i (drop (suc i) buf)
                (λ e. calm (rw (long, tag8, found, find_complete_message) e)))
      ]
    ]
  ]

framed-prefix_checked :
    (buf more : Bytes)
    → IsFramed (buf ++ more)
    → length buf < length (buf ++ more)
    → find_complete_message true buf ≡ ok none
framed-prefix_checked buf more framed less = elim (Outcome-cases (find_complete_message true buf)) [
  | inl (none, e) ↦ e
  | inl (some n, e) ↦
      let same : n ≡ length (buf ++ more) =
        cc (framed, find_complete_message-append true buf more (rw e tt), e) in
      absurd (omega (arith, same, (find_complete_message-bounds buf n e).1))
  | inr (inl (x, e)) ↦ cc (framed, find_complete_message-append true buf more (rw e tt), e)
  | inr (inr e) ↦ absurd (find_complete_message-panic true buf more _ e framed)
]

-- Of a proper beginning of a framed message, framing wants more bytes.
pub framed-prefix :
    (checks : Bool) (buf more : Bytes)
    → IsFramed (buf ++ more)
    → length buf < length (buf ++ more)
    → find_complete_message checks buf ≡ ok none
framed-prefix checks buf more framed less =
    let wants = framed-prefix_checked buf more framed less in
    find_complete_message_unchecked checks buf (λ e. cc (wants, e)) ∙ wants

-- A framed message is found, whatever follows it.
pub framed-append :
    (checks : Bool) (m more : Bytes)
    → IsFramed m
    → find_complete_message checks (m ++ more) ≡ ok (some (length m))
framed-append checks m more framed =
    let found = find_complete_message-append true m more (rw framed tt) ∙ framed in
    find_complete_message_unchecked checks (m ++ more) (λ e. cc (found, e)) ∙ found
