-- ===== src/Prelude/Decimal/RoundTrip.antt =====
-- What is printed in decimal is read back.
use mathlib.Core.Logic.{ite, dite, if_pos, if_neg}
use mathlib.Core.WellFounded
use mathlib.Core.WellFounded.{Acc, Acc-prop}
use native.Mathlib.Decide.{dec_lt}
use Prim.Native.Nat.{ℕ, ◌+◌, ◌-◌, ◌*◌, ◌/◌, ◌%◌, ◌≤◌, ◌<◌}
use mathlib.Core.Path.{◌≡◌, refl}
use mathlib.Core.Logic.{◌≢◌}
use mathlib.Core.Option.{some}
use mathlib.Core.List.{[], ◌∷◌}
use native.Mathlib.Omega.{arith}
use blackswan_harness.Prelude.Texts.{Bytes}
use blackswan_harness.Prelude.Lists.{All}
use blackswan_harness.Prelude.Decimal.{
  lt_wf, tenth_lt, show_onto, to_string, to_string03, parse_digits, parse_unsigned, parse_decimal,
}

-- Which proof of accessibility is used does not matter.
show_onto_step :
    (v : ℕ) (here : Acc ◌<◌ v) (there : Acc ◌<◌ (v / 10)) (tail : Bytes)
    → show_onto v here tail
      ≡ ite (dec_lt 9 v) (show_onto (v / 10) there ((v % 10 + b'0') ∷ tail)) ((v + b'0') ∷ tail)
unfolding show_onto
show_onto_step v (Acc.intro _ below) there tail = λ j.
    dite (dec_lt 9 v)
      (λ more.
        show_onto (v / 10) (Acc-prop (below (v / 10) (tenth_lt more)) there j)
          ((v % 10 + b'0') ∷ tail))
      (λ done. (v + b'0') ∷ tail)

abbrev digits : ℕ → Bytes → Bytes
digits v = show_onto v (lt_wf.apply v)

digits_step :
    (v : ℕ) (tail : Bytes)
    → digits v tail
      ≡ ite (dec_lt 9 v) (digits (v / 10) ((v % 10 + b'0') ∷ tail)) ((v + b'0') ∷ tail)
digits_step v = show_onto_step v (lt_wf.apply v) (lt_wf.apply (v / 10))

abbrev pub IsDigit : ℕ → Type 0
IsDigit c = (b'0' ≤ c) × (c ≤ b'9')

parse_last :
    (bound n : ℕ) (out : Bytes)
    → n < bound
    → parse_digits bound (n / 10) ((n % 10 + b'0') ∷ out) ≡ parse_digits bound n out
unfolding parse_digits
parse_last bound n out h = ground arith

parse_first :
    (bound n : ℕ) (out : Bytes)
    → n < bound
    → n ≤ 9
    → parse_digits bound 0 ((n + b'0') ∷ out) ≡ parse_digits bound n out
unfolding parse_digits
parse_first bound n out h small = ground arith

parse_digits-digits :
    (bound v : ℕ) (tail : Bytes)
    → v < bound
    → parse_digits bound 0 (digits v tail) ≡ parse_digits bound v tail
parse_digits-digits bound v =
    WellFounded.induction lt_wf
      {C = λ k.
        (tail : Bytes)
        → k < bound
        → parse_digits bound 0 (digits k tail) ≡ parse_digits bound k tail}
      v
      λ k shorter tail small. grind (
        arith,
        parse_first bound k tail small,
        parse_last bound k tail small,
        shorter (k / 10),
        digits_step k tail,
      )

All-IsDigit-digits : (n : ℕ) (out : Bytes) → All IsDigit out → All IsDigit (digits n out)
All-IsDigit-digits n =
    WellFounded.induction lt_wf
      {C = λ m. (out : Bytes) → All IsDigit out → All IsDigit (digits m out)} n
      λ m ih out h. elim (dec_lt 9 m) [
        | yes p ↦
            rw (digits_step m out, if_pos _ p)
              (ih (m / 10) (omega arith) _ ((omega arith, omega arith), h))
        | no p ↦ rw (digits_step m out, if_neg _ p) ((omega arith, omega arith), h)
      ]

digits-ne-nil : (v : ℕ) (tail : Bytes) → digits v tail ≢ []
digits-ne-nil v =
    WellFounded.induction lt_wf {C = λ k. (tail : Bytes) → digits k tail ≢ []} v
      λ k shorter tail. grind (arith, shorter (k / 10), digits_step k tail)

-- Behind digits no sign is read.
parse_unsigned-digits :
    (bound : ℕ) (s : Bytes)
    → s ≢ []
    → All IsDigit s
    → parse_unsigned bound s ≡ parse_digits bound 0 s
unfolding parse_unsigned
parse_unsigned-digits bound [] ne h = absurd (ne refl)
parse_unsigned-digits bound (c ∷ []) ne h = refl
parse_unsigned-digits bound (c ∷ d ∷ s) ne h = ground arith

-- The printed text is digits only, and at least one.
pub to_string-IsDigit : (n : ℕ) → All IsDigit (to_string n)
unfolding to_string
to_string-IsDigit n = All-IsDigit-digits n [] tt

pub to_string-ne-nil : (n : ℕ) → to_string n ≢ []
unfolding to_string
to_string-ne-nil n = digits-ne-nil n []

-- Every value below the bound of its type is read back from its print.
pub parse_decimal-to_string : (bound n : ℕ) → n < bound → parse_decimal bound (to_string n) ≡ some n
unfolding parse_decimal to_string parse_digits
parse_decimal-to_string bound n fits =
    rw (parse_unsigned-digits bound (digits n []) (digits-ne-nil n []) (All-IsDigit-digits n [] tt))
      (parse_digits-digits bound n [] fits)

-- Three digits of a byte are read back.
pub parse_decimal-to_string03 :
    (bound n : ℕ) → n < 256 → 256 ≤ bound → parse_decimal bound (to_string03 n) ≡ some n
unfolding parse_decimal to_string03 parse_unsigned parse_digits
parse_decimal-to_string03 bound n h hb = ground arith

parse_digits-lt :
    (bound n : ℕ) (s : Bytes) (m : ℕ) → n < bound → parse_digits bound n s ≡ some m → m < bound
unfolding parse_digits
parse_digits-lt bound n [] m fits h = ground arith
parse_digits-lt bound n (c ∷ s) m fits h =
    ground (arith, parse_digits-lt bound (n * 10 + (c - b'0')) s m)

-- A value that is read is below its bound.
pub parse_decimal-lt :
    (bound : ℕ) (s : Bytes) (m : ℕ) → 0 < bound → parse_decimal bound s ≡ some m → m < bound
unfolding parse_decimal parse_unsigned
parse_decimal-lt bound [] m h e = cc
parse_decimal-lt bound (c ∷ []) m h e = parse_digits-lt bound 0 (c ∷ []) m h e
parse_decimal-lt bound (c ∷ d ∷ s) m h e =
    ground (arith, parse_digits-lt bound 0 (d ∷ s) m, parse_digits-lt bound 0 (c ∷ d ∷ s) m)
