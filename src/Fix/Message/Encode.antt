-- ===== src/Fix/Message/Encode.antt =====
-- The layout of the messages that `set_field` writes.
use blackswan_harness.Prelude.{
  ℕ, ◌+◌, ◌<◌, Bytes, codes, some, Option-cases, [], ◌∷◌, ◌++◌, append_assoc, length, length-append,
  ok, >>=-eq-ok, ◌≡◌, refl, inl, inr, arith, All,
}
use blackswan_harness.Prelude.Decimal.{to_string, to_string03}
use blackswan_harness.Prelude.Decimal.RoundTrip.{IsDigit}
use blackswan_harness.Fix.Fields.{soh, tag_begin_string}
use blackswan_harness.Prelude.Scan.{Lacks}
use blackswan_harness.Fix.Message.{
  FixMessage, find_tag, get, parse, compute_checksum, write_header, write_body, write_message,
  set_field,
}
use blackswan_harness.Fix.Framing.Shape.{tagged, counted}

pub IsDigit-Lacks : (b : ℕ) (s : Bytes) → b < b'0' → All IsDigit s → Lacks b s
IsDigit-Lacks b [] h d = tt
IsDigit-Lacks b (c ∷ s) h d = (omega arith, IsDigit-Lacks b s h d.1)

-- The checksum field, with its separator.
abbrev pub trailer : Bytes → Bytes → Bytes
trailer begin body =
    codes "10=" ++ (to_string03 (compute_checksum (write_header begin body)) ++ soh ∷ [])

pub write_message-eq :
    (begin body : Bytes) → write_message begin body ≡ write_header begin body ++ trailer begin body
unfolding write_message
write_message-eq begin body = refl

write_header-tagged :
    (begin body rest : Bytes)
    → write_header begin body ++ rest
      ≡ tagged begin (counted (to_string (length body)) (body ++ rest))
unfolding write_header
write_header-tagged begin body rest = simp append_assoc

-- A message with its parts in order, and what follows it.
pub write_message-tagged :
    (begin body rest : Bytes)
    → write_message begin body ++ rest
      ≡ tagged begin (counted (to_string (length body)) (body ++ (trailer begin body ++ rest)))
write_message-tagged begin body rest =
    rw (write_message-eq, append_assoc)
      (write_header-tagged begin body (trailer begin body ++ rest))

length-trailer : (begin body : Bytes) → length (trailer begin body) ≡ 7
unfolding to_string03
length-trailer begin body = refl

pub length-write_message :
    (begin body : Bytes)
    → length (write_message begin body)
      ≡ length begin + length (to_string (length body)) + 6 + length body + 7
unfolding write_header
length-write_message begin body = rw write_message-eq (
    omega (
      arith,
      length-append (write_header begin body) (trailer begin body),
      length-trailer begin body,
      length-append begin (soh ∷ (codes "9=" ++ (to_string (length body) ++ soh ∷ body))),
      length-append (to_string (length body)) (soh ∷ body),
    ))

-- What a call of `set_field` that succeeds has read and written.
pub set_field-ok :
    (s : Bytes) (tag : ℕ) (v out : Bytes)
    → set_field s tag v ≡ ok out
    → (msg : FixMessage) × (begin : Bytes) × (parse s ≡ ok msg)
      × (find_tag tag_begin_string msg.fields ≡ some begin)
      × (out ≡ write_message begin (write_body tag v msg.fields))
unfolding set_field get
set_field-ok s tag v out h =
    let (msg, parsed, rest) = >>=-eq-ok (parse s) _ h in
    elim (Option-cases (find_tag tag_begin_string msg.fields)) [
      | inl e ↦ cc (rw e at rest)
      | inr (begin, e) ↦ (msg, begin, parsed, e, cc (rw e at rest))
    ]
