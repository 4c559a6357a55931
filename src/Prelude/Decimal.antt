-- ===== src/Prelude/Decimal.antt =====
-- Rust's decimal printing of unsigned integers (`to_string`, `{}`, `{:03}`) and `str::parse`.
pub mod RoundTrip
use mathlib.Core.Logic.{dite}
use mathlib.Core.WellFounded.{Acc, WellFounded}
use native.Mathlib.Decide.{dec_lt}
use blackswan_harness.Prelude.Tests.{ltb, leb, ◌==◌, if◌then◌else◌}
use blackswan_harness.Prelude.Texts.{Bytes, codes}
use Prim.Native.Nat.{ℕ, zero, suc, ◌+◌, ◌-◌, ◌*◌, ◌/◌, ◌%◌, ◌<◌}
use mathlib.Core.Path.{◌≡◌, refl}
use mathlib.Core.Bool.{◌&&◌}
use mathlib.Core.Option.{Option, none, some}
use mathlib.Core.List.{[], ◌∷◌}
use native.Mathlib.Omega.{arith}

-- Numbers are accessible below any bound.
acc_below : (bound m : ℕ) → m < bound → Acc ◌<◌ m
acc_below zero m below = absurd (omega arith)
acc_below (suc bound) m below = Acc.intro m (λ j smaller. acc_below bound j (omega arith))

pub lt_wf : WellFounded ◌<◌
unfolding acc_below
lt_wf = record { apply = λ m. acc_below (m + 1) m (omega arith) }

pub tenth_lt : {v : ℕ} → 9 < v → v / 10 < v
tenth_lt two_digits = omega arith

-- The digits of `n` in front of `out`: the last one first, until one digit is left.
show_onto : (v : ℕ) → Acc ◌<◌ v → Bytes → Bytes
show_onto v (Acc.intro _ below) tail =
    dite (dec_lt 9 v)
      (λ more. show_onto (v / 10) (below (v / 10) (tenth_lt more)) ((v % 10 + b'0') ∷ tail))
      (λ done. (v + b'0') ∷ tail)

-- `n.to_string()`, `format!("{n}")`.
unfoldable pub to_string : ℕ → Bytes
unfolding show_onto lt_wf dec_lt acc_below
to_string n = show_onto n (lt_wf.apply n) []

-- `format!("{n:03}")` for a byte: three digits, with zeros in front.
unfoldable pub to_string03 : ℕ → Bytes
to_string03 n = (b'0' + n / 100) ∷ (b'0' + n / 10 % 10) ∷ (b'0' + n % 10) ∷ []

-- The digits behind the value so far; a value of `bound` or more is an overflow.
parse_digits : ℕ → ℕ → Bytes → Option ℕ
parse_digits bound n [] = some n
parse_digits bound n (c ∷ s) =
    let m = n * 10 + (c - b'0') in
    if leb b'0' c && leb c b'9' && ltb m bound then parse_digits bound m s else none

-- A leading `+` is accepted, and a sign alone or an empty text is not.
parse_unsigned : ℕ → Bytes → Option ℕ
parse_unsigned bound [] = none
parse_unsigned bound (c ∷ []) = parse_digits bound 0 (c ∷ [])
parse_unsigned bound (c ∷ d ∷ s) =
    if c == b'+' then parse_digits bound 0 (d ∷ s) else parse_digits bound 0 (c ∷ d ∷ s)

-- `str::from_utf8(s)` and then `parse` of an unsigned type with values below `bound`. A byte string
-- that is not UTF-8 has a byte that is no digit, so both failures are the one `none`.
unfoldable pub parse_decimal : ℕ → Bytes → Option ℕ
unfolding parse_digits parse_unsigned
parse_decimal bound s = parse_unsigned bound s

shows : to_string 1024 ≡ codes "1024"
unfolding to_string
shows = refl

parses : parse_decimal 4294967296 (codes "+0044") ≡ some 44
unfolding parse_decimal
parses = refl

overflows : parse_decimal 4294967296 (codes "4294967296") ≡ none
unfolding parse_decimal
overflows = refl
